-- ===== src/Client/Tree.antt =====
-- client/src/tree.c, client/include/tree.h: a search tree from strings to values, with a limit on its
-- size. A pointer to a value that may be NULL is an Option. The result `none` is undefined behaviour
-- or a failed assert. The copy constructor is a parameter, as is whether malloc finds a node.
pub mod Lookup
pub mod Order
pub mod Delete
pub mod Removed
pub mod Refined
pub mod Invariant
pub mod Stored
pub mod Examples
use mathlib.Core.Option
use pvs_kp.Base.{
  ℕ, ◌+◌, ◌-◌, ◌++◌, not, ◌&&◌, Bool, true, false, Option, none, some, List, [], ◌∷◌, length, ◌==◌,
  ltb, if◌then◌else◌,
}

pub data TreeCode : Type 0 where
  success memory_error tree_overflow : TreeCode

-- The sign of strcmp.
pub data Sign : Type 0 where
  negative equal positive : Sign

-- What stands at the branch of `cmp == 0`, of `cmp < 0` and of neither.
abbrev pub pick {ℓ} : {B : Type ℓ} → Sign → B → B → B → B
pick equal e n p = e
pick negative e n p = n
pick positive e n p = p

unfoldable pub strcmp : List ℕ → List ℕ → Sign
strcmp [] [] = equal
strcmp [] (b ∷ bs) = negative
strcmp (a ∷ as') [] = positive
strcmp (a ∷ as') (b ∷ bs) =
    let rest = strcmp as' bs in if a == b then rest else if ltb a b then negative else positive

pub data TreeNode {ℓ} (A : Type ℓ) : Type ℓ where
  null : TreeNode A
  node : TreeNode A → List ℕ → Option A → TreeNode A → TreeNode A

pub record Tree {ℓ} (A : Type ℓ) : Type ℓ where
  pub root : TreeNode A
  pub size : ℕ
  pub max_size : ℕ

abbrev pub is_null {ℓ} : {A : Type ℓ} → Option A → Bool
is_null none = true
is_null (some a) = false

module _ {ℓ} {A : Type ℓ} (copy : Option A → Option A) (has_node : Bool) where
  -- `key` is an array of 255 bytes.
  unfoldable pub create_node : List ℕ → Option A → Option (Option (TreeNode A))
  create_node key value =
      if not has_node
      then some none
      else if is_null (copy value) && not (is_null value)
      then some none
      else if ltb (length key) 255
      then some (some (node null key (copy value) null))
      else none

  -- The subtree, the tree's size and the code, from those before.
  unfoldable pub tree_node_insert :
      ℕ → ℕ → TreeNode A → List ℕ → Option A → Option (TreeNode A × ℕ × TreeCode)
  unfolding create_node
  tree_node_insert size max_size null key value =
      let added : Option (TreeNode A) → TreeNode A × ℕ × TreeCode =
        λ new. elim new [ none ↦ (null, size, memory_error) | some n ↦ (n, size + 1, success) ] in
      if size == max_size
      then some (null, size, tree_overflow)
      else Option.map {A = Option (TreeNode A)} added (create_node key value)
  tree_node_insert size max_size (node left k v right) key value =
      let in_left = tree_node_insert size max_size left key value in
      let in_right = tree_node_insert size max_size right key value in
      let updated : TreeNode A × ℕ × TreeCode = (
        node left k (copy value) right,
        size,
        if is_null (copy value) then memory_error else success,
      ) in
      if size == max_size
      then some (node left k v right, size, tree_overflow)
      else pick (strcmp key k) (some updated)
          (Option.map {A = TreeNode A × ℕ × TreeCode} (λ r. (node r.0 k v right, r.1, r.2)) in_left)
          (Option.map {A = TreeNode A × ℕ × TreeCode} (λ r. (node left k v r.0, r.1, r.2)) in_right)

  unfoldable pub tree_insert : Tree A → List ℕ → Option A → Option (Tree A × TreeCode)
  unfolding tree_node_insert
  tree_insert tree key value =
      Option.map {A = TreeNode A × ℕ × TreeCode}
        (λ r. (record tree { root = r.0; size = r.1 }, r.2))
        (tree_node_insert tree.size tree.max_size tree.root key value)

module _ {ℓ} {A : Type ℓ} where
  abbrev pub tree_init : Tree A
  tree_init = record { root = null; size = 0; max_size = 10000 }

  -- The value of the node that the loop finds, `none` where it comes to NULL.
  unfoldable pub tree_node_search : TreeNode A → List ℕ → Option (Option A)
  tree_node_search null key = none
  tree_node_search (node left k v right) key =
      let in_left = tree_node_search left key in
      let in_right = tree_node_search right key in pick (strcmp key k) (some v) in_left in_right

  unfoldable pub tree_search : Tree A → List ℕ → Option (Option A)
  unfolding tree_node_search
  tree_search tree key = tree_node_search tree.root key

  -- tree_nodes_to_array, the keys and values in the order of the array.
  unfoldable pub nodes_to_array : TreeNode A → List (List ℕ × Option A)
  nodes_to_array null = []
  nodes_to_array (node left k v right) = (k, v) ∷ (nodes_to_array left ++ nodes_to_array right)

  -- The node that the loop of min_value_node ends at, of a tree with this root.
  unfoldable pub min_value_node : TreeNode A → List ℕ → Option A → List ℕ × Option A
  min_value_node null k v = (k, v)
  min_value_node (node left k' v' right) k v = min_value_node left k' v'

  -- The key that is deleted from the right subtree where the node itself has two.
  abbrev pub moved_key : TreeNode A → List ℕ → List ℕ
  moved_key null key = key
  moved_key (node left k v right) key = (min_value_node left k v).0

module _ {ℓ} {A : Type ℓ} (copy : Option A → Option A) where
  -- What becomes of a node with this key. The last argument is what the deletion of the least key
  -- from the right subtree gives.
  unfoldable pub delete_here :
      ℕ
      → TreeNode A
      → TreeNode A
      → Option (TreeNode A × ℕ × TreeCode)
      → Option (TreeNode A × ℕ × TreeCode)
  unfolding min_value_node
  delete_here size null right deleted = some (right, size - 1, success)
  delete_here size (node ll lk lv lr) null deleted = some (node ll lk lv lr, size - 1, success)
  delete_here size (node ll lk lv lr) (node rl rk rv rr) deleted =
      let left = node ll lk lv lr in
      let (key, value) = min_value_node rl rk rv in
      if is_null (copy value)
      then some (node left key (copy value) (node rl rk rv rr), size, memory_error)
      else Option.map {A = TreeNode A × ℕ × TreeCode}
          (λ r. (node left key (copy value) r.0, r.1, r.2)) deleted

  -- The subtree, the tree's size and the code. `none` is a failed assert.
  unfoldable pub tree_node_delete : ℕ → TreeNode A → List ℕ → Option (TreeNode A × ℕ × TreeCode)
  unfolding delete_here
  tree_node_delete size null key = none
  tree_node_delete size (node left k v right) key =
      let in_left = tree_node_delete size left key in
      let in_right =
        tree_node_delete size right (pick (strcmp key k) (moved_key right key) key key) in
      if size == 0
      then none
      else pick (strcmp key k) (delete_here size left right in_right)
          (Option.map {A = TreeNode A × ℕ × TreeCode} (λ r. (node r.0 k v right, r.1, r.2)) in_left)
          (Option.map {A = TreeNode A × ℕ × TreeCode} (λ r. (node left k v r.0, r.1, r.2)) in_right)

  unfoldable pub tree_delete : Tree A → List ℕ → Option (Tree A × TreeCode)
  unfolding tree_node_delete
  tree_delete tree key =
      Option.map {A = TreeNode A × ℕ × TreeCode}
        (λ r. (record tree { root = r.0; size = r.1 }, r.2))
        (tree_node_delete tree.size tree.root key)
