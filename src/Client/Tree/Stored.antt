-- ===== src/Client/Tree/Stored.antt =====
-- What an insertion into the tree of client/src/tree.c stores, for the maps of its users.
use mathlib.Core.Path.{subst}
use pvs_kp.Base.{
  ℕ, ◌+◌, ◌<◌, ◌≡◌, ◌≢◌, refl, sym, ap, ◌∙◌, ◌⊎◌, inl, inr, Bool, true, false, not, ◌&&◌, Option,
  none, some, List, length, ◌==◌, lt→ltb,
}
use pvs_kp.Client.Tree.{
  TreeCode, success, tree_overflow, Sign, pick, strcmp, TreeNode, null, node, Tree, is_null,
  create_node, tree_node_insert, tree_insert, tree_node_search, tree_search,
}
use pvs_kp.Client.Tree.Order.{strcmp_refl, Sign-cases}
use pvs_kp.Client.Tree.Lookup.{Inserted, tree_insert-Inserted}
use pvs_kp.Client.Tree.Refined.{Filled}
use pvs_kp.Client.Tree.Invariant.{IsTree, tree_insert-IsTree}

module _ {ℓ} {A : Type ℓ} where
  search-Filled : (t : TreeNode A) (key : List ℕ) → Filled t → tree_node_search t key ≢ some none
  unfolding tree_node_search
  search-Filled null key full h = cc h
  search-Filled (node l k v r) key full h =
      let at_sign : Sign → Option (Option A) =
        λ s. pick s (some v) (tree_node_search l key) (tree_node_search r key) in
      elim (Sign-cases (strcmp key k)) [
        | inl e ↦ no_value v full.1 (ap at_sign (sym e) ∙ h)
        | inr (inl e) ↦ search-Filled l key full.0 (ap at_sign (sym e) ∙ h)
        | inr (inr e) ↦ search-Filled r key full.2 (ap at_sign (sym e) ∙ h)
      ]
    where
      no_value : (v : Option A) → is_null v ≡ false → some v ≢ some none
      no_value none e h = cc e
      no_value (some a) e h = cc h

  pub tree_search-Filled :
      (tree : Tree A) (key : List ℕ) → Filled tree.root → tree_search tree key ≢ some none
  unfolding tree_search
  tree_search-Filled tree key full = search-Filled tree.root key full

  abbrev IsTreeOf : Option (Tree A × TreeCode) → Type 0
  IsTreeOf none = Unit
  IsTreeOf (some r) = IsTree r.0

  abbrev pub StoredAt : Tree A → Tree A → List ℕ → Option A → List ℕ → Type ℓ
  StoredAt tree r key value other =
      (tree_search r other
        ≡ pick (strcmp other key) (some value) (tree_search tree other) (tree_search tree other))
      ⊎ (tree_search r other ≡ tree_search tree other)

  stored :
      (copy : Option A → Option A) (tree r : Tree A) (key : List ℕ) (value : Option A)
      (other : List ℕ) (code : TreeCode)
      → IsTree r
      → ((code ≡ tree_overflow) × (tree.size ≡ tree.max_size) × (r ≡ tree))
        ⊎ ((tree.size ≢ tree.max_size)
            × Inserted copy true tree.size tree.max_size key value other tree.root r.root r.size
                code)
      → StoredAt tree r key (copy value) other
  unfolding tree_search
  stored copy tree r key value other code is_tree (inl (over, full, same)) =
      inr (ap (λ z. tree_node_search z.root other) same)
  stored copy tree r key value other code is_tree (inr (space, (count, inl (ok, found)))) =
      inl found
  stored copy tree r key value other code is_tree (inr (space, (count, inr (bad, inl found)))) =
      inr found
  stored copy tree r key value other code is_tree (inr (space, (count, inr (bad, inr found)))) =
      elim (Sign-cases (strcmp other key)) [
        | inl e ↦ absurd (search-Filled r.root other is_tree.1 (found ∙ rw e refl))
        | inr (inl e) ↦ inr (found ∙ rw e refl)
        | inr (inr e) ↦ inr (found ∙ rw e refl)
      ]

  -- The value is at its key, or malloc or the limit refused it and the map is as it was.
  pub tree_insert-Stored :
      (copy : Option A → Option A) (has_node : Bool) (tree : Tree A) (key : List ℕ)
      (value : Option A) (other : List ℕ)
      → length key < 255
      → is_null (copy value) ≡ false
      → IsTree tree
      → (r : Tree A) × (code : TreeCode) × (tree_insert copy has_node tree key value
          ≡ some (r, code))
        × IsTree r
        × StoredAt tree r key (copy value) other
  tree_insert-Stored copy has_node tree key value other short copied is_tree =
      let (r, code, run, done) = tree_insert-Inserted copy has_node tree key value other short in
      let (r', code', run', kept) =
        tree_insert-IsTree copy has_node tree key value short copied is_tree in
      let is_tree' : IsTree r = subst IsTreeOf (sym run' ∙ run) kept in
      (r, code, run, is_tree', stored copy tree r key value other code is_tree' done)

  module _ (copy : Option A → Option A) (size max_size : ℕ) (key : List ℕ) (value : Option A)
      (space : (size == max_size) ≡ false) (short : length key < 255)
      (copied : copy value ≡ value) where
    insert-new :
        (t : TreeNode A)
        → tree_node_search t key ≡ none
        → (t' : TreeNode A) × (tree_node_insert copy true size max_size t key value
            ≡ some (t', size + 1, success))
          × (tree_node_search t' key ≡ some value)
    unfolding tree_node_insert create_node tree_node_search
    insert-new null h = (
      node null key value null,
      rw space (rw copied (rw (and_not value) (rw (lt→ltb (length key) 255 short) refl))),
      rw (strcmp_refl key) refl,
    )
      where
        and_not : (v : Option A) → (is_null v && not (is_null v)) ≡ false
        and_not none = refl
        and_not (some a) = refl
    insert-new (node l k v r) h =
        let at_sign : Sign → Option (Option A) =
          λ s. pick s (some v) (tree_node_search l key) (tree_node_search r key) in
        elim (Sign-cases (strcmp key k)) [
          | inl e ↦ cc (ap at_sign (sym e) ∙ h)
          | inr (inl e) ↦
              let (l', run, found) = insert-new l (ap at_sign (sym e) ∙ h) in
              (node l' k v r, rw space (rw e (rw run refl)), rw e found)
          | inr (inr e) ↦
              let (r', run, found) = insert-new r (ap at_sign (sym e) ∙ h) in
              (node l k v r', rw space (rw e (rw run refl)), rw e found)
        ]

  -- A key that is not there, where malloc finds a node and the limit leaves room.
  pub tree_insert-new :
      (copy : Option A → Option A) (tree : Tree A) (key : List ℕ) (value : Option A)
      → (tree.size == tree.max_size) ≡ false
      → length key < 255
      → copy value ≡ value
      → tree_search tree key ≡ none
      → (r : Tree A) × (tree_insert copy true tree key value ≡ some (r, success))
        × (tree_search r key ≡ some value)
        × (r.size ≡ tree.size + 1)
  unfolding tree_insert tree_search
  tree_insert-new copy tree key value space short copied absent =
      let (t', run, found) =
        insert-new copy tree.size tree.max_size key value space short copied tree.root absent in
      (record tree { root = t'; size = tree.size + 1 }, rw run refl, found, refl)
