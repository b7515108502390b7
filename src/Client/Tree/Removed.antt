-- ===== src/Client/Tree/Removed.antt =====
-- tree_delete of client/src/tree.c as the removal from a finite map.
use pvs_kp.Base.{ℕ, ◌≡◌, refl, sym, ap, ◌∙◌, inl, inr, Option, none, some, List}
use pvs_kp.Client.Tree.{
  pick, negative, equal, strcmp, TreeNode, null, node, tree_node_search, min_value_node,
}
use pvs_kp.Client.Tree.Lookup.{goes_left, goes_right}
use pvs_kp.Client.Tree.Order.{
  IsOrdered, Above-less, Below-more, tree_node_search-Above, tree_node_search-Below, strcmp-less,
  strcmp-equal, Sign-cases,
}
use pvs_kp.Client.Tree.Delete.{
  drop_least, least-before, AllKeys-min, search-min, search-drop, removed_here, removed,
}

module _ {ℓ} {A : Type ℓ} where
  search-less_min :
      (l : TreeNode A) (k : List ℕ) (v : Option A) (r : TreeNode A) (other : List ℕ)
      → IsOrdered (node l k v r)
      → strcmp other (min_value_node l k v).0 ≡ negative
      → tree_node_search (node l k v r) other ≡ none
  unfolding tree_node_search min_value_node
  search-less_min null k v r other h before = rw before refl
  search-less_min (node ll lk lv lr) k v r other h before =
      let least_of = (min_value_node ll lk lv).0 in
      rw (strcmp-less other least_of k before (least-before ll lk lv lr k h.2))
        (search-less_min ll lk lv lr other h.0 before)

  -- Both subtrees are there.
  search-both :
      (l rl : TreeNode A) (k rk : List ℕ) (v rv : Option A) (rr : TreeNode A) (other : List ℕ)
      → IsOrdered (node l k v (node rl rk rv rr))
      → tree_node_search
          (node l (min_value_node rl rk rv).0 (min_value_node rl rk rv).1 (drop_least rl rk rv rr))
          other
        ≡ pick
            (strcmp other k)
            none
            (tree_node_search (node l k v (node rl rk rv rr)) other)
            (tree_node_search (node l k v (node rl rk rv rr)) other)
  unfolding tree_node_search
  search-both l rl k rk v rv rr other (ol, or_, hl, hr) =
      let least_of = (min_value_node rl rk rv).0 in
      let after : strcmp k least_of ≡ negative =
        AllKeys-min (λ k'. strcmp k k' ≡ negative) rl rk rv hr.0 hr.1 in
      elim (Sign-cases (strcmp other k)) [
        | inl e ↦
            let at_k : strcmp other least_of ≡ negative =
              ap (λ z. strcmp z least_of) (strcmp-equal other k e) ∙ after in
            let gone : tree_node_search l other ≡ none =
              ap (tree_node_search l) (strcmp-equal other k e) ∙ tree_node_search-Below k l hl in
            rw e (rw at_k gone)
        | inr (inl e) ↦ rw e (rw (strcmp-less other k least_of e after) refl)
        | inr (inr e) ↦
            let gone = tree_node_search-Below other l (Below-more other k l e hl) in
            elim (Sign-cases (strcmp other least_of)) [
              | inl m ↦
                  let found =
                    ap (tree_node_search (node rl rk rv rr)) (strcmp-equal other least_of m)
                    ∙ search-min rl rk rv rr or_ in
                  rw e (rw m (sym found))
              | inr (inl m) ↦ rw e (rw m (gone ∙ sym (search-less_min rl rk rv rr other or_ m)))
              | inr (inr m) ↦ rw e (rw m (search-drop rl rk rv rr other or_ m))
            ]
      ]

  search-removed_here :
      (l r : TreeNode A) (k : List ℕ) (v : Option A) (other : List ℕ)
      → IsOrdered (node l k v r)
      → tree_node_search (removed_here l r) other
        ≡ pick
            (strcmp other k)
            none
            (tree_node_search (node l k v r) other)
            (tree_node_search (node l k v r) other)
  unfolding tree_node_search
  search-removed_here null r k v other (ol, or_, hl, hr) = elim (Sign-cases (strcmp other k)) [
    | inl e ↦
        rw e (ap (tree_node_search r) (strcmp-equal other k e) ∙ tree_node_search-Above k r hr)
    | inr (inl e) ↦ rw e (tree_node_search-Above other r (Above-less other k r e hr))
    | inr (inr e) ↦ rw e refl
  ]
  search-removed_here (node ll lk lv lr) null k v other (ol, or_, hl, hr) =
      let l = node ll lk lv lr in
      elim (Sign-cases (strcmp other k)) [
        | inl e ↦
            rw e (ap (tree_node_search l) (strcmp-equal other k e) ∙ tree_node_search-Below k l hl)
        | inr (inl e) ↦ rw e refl
        | inr (inr e) ↦ rw e (tree_node_search-Below other l (Below-more other k l e hl))
      ]
  search-removed_here (node ll lk lv lr) (node rl rk rv rr) k v other h =
      search-both (node ll lk lv lr) rl k rk v rv rr other h

  -- The tree without the key, as a map.
  pub search-removed :
      (t : TreeNode A) (key other : List ℕ)
      → IsOrdered t
      → tree_node_search (removed t key) other
        ≡ pick (strcmp other key) none (tree_node_search t other) (tree_node_search t other)
  unfolding removed tree_node_search
  search-removed null key other h = elim (Sign-cases (strcmp other key)) [
    | inl e ↦ rw e refl
    | inr (inl e) ↦ rw e refl
    | inr (inr e) ↦ rw e refl
  ]
  search-removed (node l k v r) key other h =
      let at : strcmp other key ≡ equal → strcmp other k ≡ strcmp key k =
        λ e. ap (λ z. strcmp z k) (strcmp-equal other key e) in
      let in_left = search-removed l key other h.0 in
      let in_right = search-removed r key other h.1 in
      elim (Sign-cases (strcmp key k)) [
        | inl e ↦ rw e (rw (strcmp-equal key k e) (search-removed_here l r k v other h))
        | inr (inl e) ↦ rw e (
            goes_left (some v) none (tree_node_search l other)
              (tree_node_search (removed l key) other) (tree_node_search r other) (strcmp other key)
              (strcmp other k) (λ q. at q ∙ e) in_left)
        | inr (inr e) ↦ rw e (
            goes_right (some v) none (tree_node_search r other)
              (tree_node_search (removed r key) other) (tree_node_search l other) (strcmp other key)
              (strcmp other k) (λ q. at q ∙ e) in_right)
      ]
