-- ===== src/Client/Tree/Invariant.antt =====
-- The invariant of the tree of client/src/tree.c, under insertion and deletion.
use pvs_kp.Base.{
  ℕ, ◌+◌, ◌-◌, ◌<◌, ◌≡◌, refl, ◌⊎◌, inl, inr, Bool, false, Option, none, some, List, arith, length,
  length-append, ◌==◌, lt→ltb, Bool-cases, Option-cases,
}
use pvs_kp.Client.Tree.{
  TreeCode, success, memory_error, tree_overflow, pick, negative, equal, positive, strcmp, TreeNode,
  null, node, Tree, is_null, create_node, tree_node_insert, tree_insert, tree_node_search,
  tree_search, nodes_to_array, tree_delete,
}
use pvs_kp.Client.Tree.Order.{IsOrdered, Above, Below, negative-flip, positive-flip, Sign-cases}
use pvs_kp.Client.Tree.Delete.{removed, IsOrdered-removed}
use pvs_kp.Client.Tree.Removed.{search-removed}
use pvs_kp.Client.Tree.Refined.{
  Filled, Filled-removed, length-removed, tree_node_delete-removed, delete-empty,
}
use pvs_kp.Client.Tree.Lookup.{insert-full}

module _ {ℓ} {A : Type ℓ} where
  -- A search tree without NULL values, with as many nodes as its size says and the limit allows.
  abbrev pub IsTree : Tree A → Type 0
  IsTree tree =
      IsOrdered tree.root
      × Filled tree.root
      × (tree.size ≡ length (nodes_to_array tree.root))
      × (tree.size < tree.max_size + 1)

module _ {ℓ} {A : Type ℓ} (copy : Option A → Option A) (has_node : Bool) (size max_size : ℕ)
    (key : List ℕ) (value : Option A) (short : length key < 255)
    (copied : is_null (copy value) ≡ false) where
  -- What an insertion keeps of a subtree. The last argument is the size that it returns.
  abbrev Keeps : TreeNode A → TreeNode A → ℕ → Type 0
  Keeps t t' size' =
      (IsOrdered t → IsOrdered t')
      × ((b : List ℕ) → strcmp b key ≡ negative → Above b t → Above b t')
      × ((b : List ℕ) → strcmp b key ≡ positive → Below b t → Below b t')
      × (Filled t → Filled t')
      × (length (nodes_to_array t') + size ≡ length (nodes_to_array t) + size')
      × (size' < size + 2)

  abbrev KeptBy : TreeNode A → Type ℓ
  KeptBy t =
      (t' : TreeNode A) × (size' : ℕ) × (code : TreeCode) × (tree_node_insert copy has_node size
          max_size t key value
        ≡ some (t', size', code))
      × Keeps t t' size'

  Keeps-itself : (t : TreeNode A) → Keeps t t size
  Keeps-itself t = (λ h. h, λ b e h. h, λ b e h. h, λ h. h, refl, omega arith)

  module _ (space : (size == max_size) ≡ false) where
    kept-null : KeptBy null
    unfolding tree_node_insert create_node nodes_to_array
    kept-null = elim (Bool-cases has_node) [
      | inr refused ↦ (null, size, memory_error, rw space (rw refused refl), Keeps-itself null)
      | inl got ↦ (
        node null key (copy value) null,
        size + 1,
        success,
        rw space (rw got (rw copied (rw (lt→ltb (length key) 255 short) refl))),
        (
          λ h. (tt, tt, tt, tt),
          λ b e h. (tt, e, tt),
          λ b e h. (tt, e, tt),
          λ h. (tt, copied, tt),
          omega arith,
          omega arith,
        ),
      )
    ]

    module _ (k : List ℕ) (v : Option A) (l r : TreeNode A) where
      kept-here : strcmp key k ≡ equal → KeptBy (node l k v r)
      unfolding tree_node_insert nodes_to_array
      kept-here e = (
        node l k (copy value) r,
        size,
        success,
        rw space (rw e (rw copied refl)),
        (λ h. h, λ b f h. h, λ b f h. h, λ h. (h.0, copied, h.2), refl, omega arith),
      )

      kept-left : strcmp key k ≡ negative → KeptBy l → KeptBy (node l k v r)
      unfolding tree_node_insert nodes_to_array
      kept-left e (l', size', code, run, (order, above, below, filled, count, bound)) = (
        node l' k v r,
        size',
        code,
        rw space (rw e (rw run refl)),
        (
          λ h. (order h.0, h.1, below k (negative-flip key k e) h.2, h.3),
          λ b f h. (above b f h.0, h.1, h.2),
          λ b f h. (below b f h.0, h.1, h.2),
          λ h. (filled h.0, h.1, h.2),
          omega (
            arith,
            count,
            length-append (nodes_to_array l') (nodes_to_array r),
            length-append (nodes_to_array l) (nodes_to_array r),
          ),
          bound,
        ),
      )

      kept-right : strcmp key k ≡ positive → KeptBy r → KeptBy (node l k v r)
      unfolding tree_node_insert nodes_to_array
      kept-right e (r', size', code, run, (order, above, below, filled, count, bound)) = (
        node l k v r',
        size',
        code,
        rw space (rw e (rw run refl)),
        (
          λ h. (h.0, order h.1, h.2, above k (positive-flip key k e) h.3),
          λ b f h. (h.0, h.1, above b f h.2),
          λ b f h. (h.0, h.1, below b f h.2),
          λ h. (h.0, h.1, filled h.2),
          omega (
            arith,
            count,
            length-append (nodes_to_array l) (nodes_to_array r'),
            length-append (nodes_to_array l) (nodes_to_array r),
          ),
          bound,
        ),
      )

    tree_node_insert-KeptBy : (t : TreeNode A) → KeptBy t
    tree_node_insert-KeptBy null = kept-null
    tree_node_insert-KeptBy (node l k v r) =
        let in_left = tree_node_insert-KeptBy l in
        let in_right = tree_node_insert-KeptBy r in
        elim (Sign-cases (strcmp key k)) [
          | inl e ↦ kept-here k v l r e
          | inr (inl e) ↦ kept-left k v l r e in_left
          | inr (inr e) ↦ kept-right k v l r e in_right
        ]

module _ {ℓ} {A : Type ℓ} where
  -- An insertion of a key of less than 255 bytes, the value being copied, keeps a search tree, whose
  -- nodes are as many as its size says and its limit allows: whatever malloc and the key, and also
  -- at the limit.
  pub tree_insert-IsTree :
      (copy : Option A → Option A) (has_node : Bool) (tree : Tree A) (key : List ℕ)
      (value : Option A)
      → length key < 255
      → is_null (copy value) ≡ false
      → IsTree tree
      → (r : Tree A) × (code : TreeCode) × (tree_insert copy has_node tree key value
          ≡ some (r, code))
        × IsTree r
  unfolding tree_insert
  tree_insert-IsTree copy has_node tree key value short copied (order, filled, count, bound) =
      elim (Bool-cases (tree.size == tree.max_size)) [
        | inl full ↦ (
          tree,
          tree_overflow,
          rw (insert-full copy has_node tree.size tree.max_size tree.root key value full) refl,
          (order, filled, count, bound),
        )
        | inr space ↦
            let (t', size', code, run, kept) =
              tree_node_insert-KeptBy copy has_node tree.size tree.max_size key value short copied
                space tree.root in
            (
              record tree { root = t'; size = size' },
              code,
              rw run refl,
              (
                kept.0 order,
                kept.3 filled,
                omega (arith, kept.4, count),
                ground (arith, kept.5, bound, space),
              ),
            )
      ]

  -- tree_delete on a search tree, the values being copied. A key that is not there fails an assert.
  -- One that is there is taken out: the result is SUCCESS and again such a tree, one node smaller,
  -- in which tree_search finds nothing at the key and elsewhere what it found before.
  pub tree_delete-IsTree :
      (copy : Option A → Option A) (tree : Tree A) (key other : List ℕ)
      → ((v : Option A) → copy v ≡ v)
      → IsTree tree
      → ((tree_search tree key ≡ none) × (tree_delete copy tree key ≡ none))
        ⊎ ((r : Tree A) × (tree_delete copy tree key ≡ some (r, success))
            × IsTree r
            × (r.size + 1 ≡ tree.size)
            × (tree_search r other
                ≡ pick (strcmp other key) none (tree_search tree other) (tree_search tree other)))
  unfolding tree_delete tree_search
  tree_delete-IsTree copy tree key other same (order, filled, count, bound) =
      elim (Option-cases (tree_node_search tree.root key)) [
        | inl absent ↦ inl (
          absent,
          elim (Bool-cases (tree.size == 0)) [
            | inl empty ↦ rw (delete-empty copy tree.size tree.root key empty) refl
            | inr some_left ↦
                rw
                  (tree_node_delete-removed copy tree.size same some_left tree.root key order
                    filled)
                  (rw absent refl)
          ],
        )
        | inr (v, found) ↦
            let less = length-removed tree.root key v found in
            let some_left : (tree.size == 0) ≡ false = ground (arith, less, count) in
            let run =
              tree_node_delete-removed copy tree.size same some_left tree.root key order filled in
            inr (
              record tree { root = removed tree.root key; size = tree.size - 1 },
              rw run (rw found refl),
              (
                IsOrdered-removed tree.root key order,
                Filled-removed tree.root key filled,
                omega (arith, less, count),
                omega (arith, bound),
              ),
              omega (arith, less, count),
              search-removed tree.root key other order,
            )
      ]
