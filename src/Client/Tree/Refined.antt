-- ===== src/Client/Tree/Refined.antt =====
-- tree_delete of client/src/tree.c, run on a search tree, against the reference deletion.
use mathlib.Core.Option
use pvs_kp.Base.{
  ℕ, ◌+◌, ◌-◌, ◌≡◌, refl, sym, ap, ◌∙◌, inl, inr, true, false, Option, none, some, List, arith,
  length, length-append, ◌==◌,
}
use pvs_kp.Client.Tree.{
  TreeCode, success, pick, negative, strcmp, TreeNode, null, node, is_null, tree_node_search,
  nodes_to_array, min_value_node, moved_key, delete_here, tree_node_delete,
}
use pvs_kp.Client.Tree.Order.{IsOrdered, strcmp_refl, Sign-cases}
use pvs_kp.Client.Tree.Delete.{drop_least, least-before, removed_here, removed}

module _ {ℓ} {A : Type ℓ} where
  -- No node has a value of NULL.
  abbrev pub Filled : TreeNode A → Type 0
  Filled null = Unit
  Filled (node l k v r) = Filled l × (is_null v ≡ false) × Filled r

  Filled-min :
      (l : TreeNode A) (k : List ℕ) (v : Option A)
      → Filled l
      → is_null v ≡ false
      → is_null (min_value_node l k v).1 ≡ false
  unfolding min_value_node
  Filled-min null k v h here = here
  Filled-min (node ll lk lv lr) k v h here = Filled-min ll lk lv h.0 h.1

  Filled-drop :
      (l : TreeNode A) (k : List ℕ) (v : Option A) (r : TreeNode A)
      → Filled (node l k v r)
      → Filled (drop_least l k v r)
  unfolding drop_least
  Filled-drop null k v r h = h.2
  Filled-drop (node ll lk lv lr) k v r h = (Filled-drop ll lk lv lr h.0, h.1, h.2)

  Filled-removed_here : (l r : TreeNode A) → Filled l → Filled r → Filled (removed_here l r)
  Filled-removed_here null r hl hr = hr
  Filled-removed_here (node ll lk lv lr) null hl hr = hl
  Filled-removed_here (node ll lk lv lr) (node rl rk rv rr) hl hr =
      (hl, Filled-min rl rk rv hr.0 hr.1, Filled-drop rl rk rv rr hr)

  pub Filled-removed : (t : TreeNode A) (key : List ℕ) → Filled t → Filled (removed t key)
  unfolding removed
  Filled-removed null key h = tt
  Filled-removed (node l k v r) key h = elim (Sign-cases (strcmp key k)) [
    | inl e ↦ rw e (Filled-removed_here l r h.0 h.2)
    | inr (inl e) ↦ rw e (Filled-removed l key h.0, h.1, h.2)
    | inr (inr e) ↦ rw e (h.0, h.1, Filled-removed r key h.2)
  ]

  length-drop :
      (l : TreeNode A) (k : List ℕ) (v : Option A) (r : TreeNode A)
      → length (nodes_to_array (drop_least l k v r)) + 1 ≡ length (nodes_to_array (node l k v r))
  unfolding nodes_to_array drop_least
  length-drop null k v r = omega arith
  length-drop (node ll lk lv lr) k v r = omega (
    arith,
    length-drop ll lk lv lr,
    length-append (nodes_to_array (drop_least ll lk lv lr)) (nodes_to_array r),
    length-append (nodes_to_array (node ll lk lv lr)) (nodes_to_array r),
  )

  length-removed_here :
      (l r : TreeNode A)
      → length (nodes_to_array (removed_here l r))
        ≡ length (nodes_to_array l) + length (nodes_to_array r)
  unfolding nodes_to_array
  length-removed_here null r = omega arith
  length-removed_here (node ll lk lv lr) null = omega arith
  length-removed_here (node ll lk lv lr) (node rl rk rv rr) = omega (
    arith,
    length-drop rl rk rv rr,
    length-append (nodes_to_array (node ll lk lv lr)) (nodes_to_array (drop_least rl rk rv rr)),
  )

  -- The deletion of a key that is there takes one node away.
  pub length-removed :
      (t : TreeNode A) (key : List ℕ) (value : Option A)
      → tree_node_search t key ≡ some value
      → length (nodes_to_array (removed t key)) + 1 ≡ length (nodes_to_array t)
  unfolding nodes_to_array removed tree_node_search
  length-removed null key value h = cc h
  length-removed (node l k v r) key value h = elim (Sign-cases (strcmp key k)) [
    | inl e ↦ rw e (
        omega (arith, length-removed_here l r, length-append (nodes_to_array l) (nodes_to_array r)))
    | inr (inl e) ↦
        let less = length-removed l key value (
          ap (λ s. pick s (some v) (tree_node_search l key) (tree_node_search r key)) (sym e)
          ∙ h) in
        rw e (
          omega (
            arith,
            less,
            length-append (nodes_to_array (removed l key)) (nodes_to_array r),
            length-append (nodes_to_array l) (nodes_to_array r),
          ))
    | inr (inr e) ↦
        let less = length-removed r key value (
          ap (λ s. pick s (some v) (tree_node_search l key) (tree_node_search r key)) (sym e)
          ∙ h) in
        rw e (
          omega (
            arith,
            less,
            length-append (nodes_to_array l) (nodes_to_array (removed r key)),
            length-append (nodes_to_array l) (nodes_to_array r),
          ))
  ]

after_map {ℓ κ λ'} :
    {A : Type ℓ} {B : Type κ} {C : Type λ'} (b : B) (f : B → C) (o : Option A)
    → Option.map {A = B} f (Option.map {A = A} (λ v. b) o) ≡ Option.map {A = A} (λ v. f b) o
after_map b f none = refl
after_map b f (some a) = refl

module _ {ℓ} {A : Type ℓ} (copy : Option A → Option A) (size : ℕ) where
  -- The assert that the tree is not empty.
  pub delete-empty :
      (t : TreeNode A) (key : List ℕ) → (size == 0) ≡ true → tree_node_delete copy size t key ≡ none
  unfolding tree_node_delete
  delete-empty null key e = refl
  delete-empty (node l k v r) key e = rw e refl

  delete_left :
      (l : TreeNode A) (k : List ℕ) (v : Option A) (r : TreeNode A) (key : List ℕ)
      → (size == 0) ≡ false
      → strcmp key k ≡ negative
      → tree_node_delete copy size (node l k v r) key
        ≡ Option.map {A = TreeNode A × ℕ × TreeCode}
            (λ d. (node d.0 k v r, d.1, d.2))
            (tree_node_delete copy size l key)
  unfolding tree_node_delete
  delete_left l k v r key some_left e = rw some_left (rw e refl)

  delete_least :
      (k : List ℕ) (v : Option A) (r : TreeNode A)
      → (size == 0) ≡ false
      → tree_node_delete copy size (node null k v r) k ≡ some (r, size - 1, success)
  unfolding tree_node_delete delete_here
  delete_least k v r some_left = rw some_left (rw (strcmp_refl k) refl)

  delete-min :
      (l : TreeNode A) (k : List ℕ) (v : Option A) (r : TreeNode A)
      → (size == 0) ≡ false
      → IsOrdered (node l k v r)
      → tree_node_delete copy size (node l k v r) (min_value_node l k v).0
        ≡ some (drop_least l k v r, size - 1, success)
  unfolding drop_least min_value_node
  delete-min null k v r some_left h = delete_least k v r some_left
  delete-min (node ll lk lv lr) k v r some_left h =
      delete_left (node ll lk lv lr) k v r (min_value_node ll lk lv).0 some_left
        (least-before ll lk lv lr k h.2)
      ∙ rw (delete-min ll lk lv lr some_left h.0) refl

  module _ (same : (v : Option A) → copy v ≡ v) (some_left : (size == 0) ≡ false) where
    deleted-here :
        (l r : TreeNode A) (key : List ℕ)
        → IsOrdered r
        → Filled r
        → delete_here copy size l r (tree_node_delete copy size r (moved_key r key))
          ≡ some (removed_here l r, size - 1, success)
    unfolding delete_here
    deleted-here null r key or_ full = refl
    deleted-here (node ll lk lv lr) null key or_ full = refl
    deleted-here (node ll lk lv lr) (node rl rk rv rr) key or_ full =
        rw (delete-min rl rk rv rr some_left or_)
          (rw (same (min_value_node rl rk rv).1) (rw (Filled-min rl rk rv full.0 full.1) refl))

    -- A key that is not there fails the assert that the node is not NULL.
    pub tree_node_delete-removed :
        (t : TreeNode A) (key : List ℕ)
        → IsOrdered t
        → Filled t
        → tree_node_delete copy size t key
          ≡ Option.map {A = Option A}
              (λ v. (removed t key, size - 1, success))
              (tree_node_search t key)
    unfolding tree_node_delete tree_node_search removed
    tree_node_delete-removed null key h full = refl
    tree_node_delete-removed (node l k v r) key h full =
        let in_left = tree_node_delete-removed l key h.0 full.0 in
        let in_right = tree_node_delete-removed r key h.1 full.2 in
        elim (Sign-cases (strcmp key k)) [
          | inl e ↦ rw some_left (rw e (deleted-here l r key h.1 full.2))
          | inr (inl e) ↦ rw some_left (rw e (rw in_left (after_map _ _ (tree_node_search l key))))
          | inr (inr e) ↦ rw some_left (rw e (rw in_right (after_map _ _ (tree_node_search r key))))
        ]
