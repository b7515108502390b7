-- ===== src/Client/Tree/Delete.antt =====
-- Deletion from the tree of client/src/tree.c.
use pvs_kp.Base.{ℕ, ◌≡◌, refl, ap, inl, inr, Option, none, some, List}
use pvs_kp.Client.Tree.{
  pick, negative, positive, strcmp, TreeNode, null, node, tree_node_search, min_value_node,
}
use pvs_kp.Client.Tree.Order.{
  AllKeys, Above, Below, IsOrdered, negative-flip, positive-flip, Above-less, Below-more,
  strcmp_refl, Sign-cases,
}

module _ {ℓ} {A : Type ℓ} where
  -- The least key of a tree with this root, and the tree without its node.
  abbrev least : TreeNode A → List ℕ → List ℕ
  least l k = (min_value_node l k none).0

  unfoldable pub drop_least : TreeNode A → List ℕ → Option A → TreeNode A → TreeNode A
  drop_least null k v r = r
  drop_least (node ll lk lv lr) k v r = node (drop_least ll lk lv lr) k v r

  pub AllKeys-min {κ} :
      (P : List ℕ → Type κ) (l : TreeNode A) (k : List ℕ) (v : Option A)
      → AllKeys P l
      → P k
      → P (min_value_node l k v).0
  unfolding min_value_node
  AllKeys-min P null k v h here = here
  AllKeys-min P (node ll lk lv lr) k v h here = AllKeys-min P ll lk lv h.0 h.1

  AllKeys-drop {κ} :
      (P : List ℕ → Type κ) (l : TreeNode A) (k : List ℕ) (v : Option A) (r : TreeNode A)
      → AllKeys P (node l k v r)
      → AllKeys P (drop_least l k v r)
  unfolding drop_least
  AllKeys-drop P null k v r h = h.2
  AllKeys-drop P (node ll lk lv lr) k v r h = (AllKeys-drop P ll lk lv lr h.0, h.1, h.2)

  IsOrdered-drop :
      (l : TreeNode A) (k : List ℕ) (v : Option A) (r : TreeNode A)
      → IsOrdered (node l k v r)
      → IsOrdered (drop_least l k v r)
  unfolding drop_least
  IsOrdered-drop null k v r h = h.1
  IsOrdered-drop (node ll lk lv lr) k v r h = (
    IsOrdered-drop ll lk lv lr h.0,
    h.1,
    AllKeys-drop (λ k'. strcmp k k' ≡ positive) ll lk lv lr h.2,
    h.3,
  )

  -- The least key is before the root's, if there is a left subtree.
  pub least-before :
      (ll : TreeNode A) (lk : List ℕ) (lv : Option A) (lr : TreeNode A) (k : List ℕ)
      → Below k (node ll lk lv lr)
      → strcmp (min_value_node ll lk lv).0 k ≡ negative
  least-before ll lk lv lr k h =
      positive-flip k (min_value_node ll lk lv).0
        (AllKeys-min (λ k'. strcmp k k' ≡ positive) ll lk lv h.0 h.1)

  Above-drop :
      (l : TreeNode A) (k : List ℕ) (v : Option A) (r : TreeNode A)
      → IsOrdered (node l k v r)
      → Above (min_value_node l k v).0 (drop_least l k v r)
  unfolding drop_least min_value_node
  Above-drop null k v r h = h.3
  Above-drop (node ll lk lv lr) k v r h =
      let before = least-before ll lk lv lr k h.2 in
      (Above-drop ll lk lv lr h.0, before, Above-less (min_value_node ll lk lv).0 k r before h.3)

  -- What is found at the least key, and at the others.
  pub search-min :
      (l : TreeNode A) (k : List ℕ) (v : Option A) (r : TreeNode A)
      → IsOrdered (node l k v r)
      → tree_node_search (node l k v r) (min_value_node l k v).0 ≡ some (min_value_node l k v).1
  unfolding tree_node_search min_value_node
  search-min null k v r h = rw (strcmp_refl k) refl
  search-min (node ll lk lv lr) k v r h =
      rw (least-before ll lk lv lr k h.2) (search-min ll lk lv lr h.0)

  pub search-drop :
      (l : TreeNode A) (k : List ℕ) (v : Option A) (r : TreeNode A) (other : List ℕ)
      → IsOrdered (node l k v r)
      → strcmp other (min_value_node l k v).0 ≡ positive
      → tree_node_search (drop_least l k v r) other ≡ tree_node_search (node l k v r) other
  unfolding tree_node_search min_value_node drop_least
  search-drop null k v r other h after = rw after refl
  search-drop (node ll lk lv lr) k v r other h after =
      ap (λ z. pick (strcmp other k) (some v) z (tree_node_search r other))
        (search-drop ll lk lv lr other h.0 after)

  -- Reference: the tree without the key.
  abbrev pub removed_here : TreeNode A → TreeNode A → TreeNode A
  removed_here null r = r
  removed_here (node ll lk lv lr) null = node ll lk lv lr
  removed_here (node ll lk lv lr) (node rl rk rv rr) =
      let least_of = min_value_node rl rk rv in
      node (node ll lk lv lr) least_of.0 least_of.1 (drop_least rl rk rv rr)

  unfoldable pub removed : TreeNode A → List ℕ → TreeNode A
  unfolding min_value_node drop_least
  removed null key = null
  removed (node l k v r) key =
      let in_left = removed l key in
      let in_right = removed r key in
      pick (strcmp key k) (removed_here l r) (node in_left k v r) (node l k v in_right)

  AllKeys-removed_here {κ} :
      (P : List ℕ → Type κ) (l r : TreeNode A)
      → AllKeys P l
      → AllKeys P r
      → AllKeys P (removed_here l r)
  AllKeys-removed_here P null r hl hr = hr
  AllKeys-removed_here P (node ll lk lv lr) null hl hr = hl
  AllKeys-removed_here P (node ll lk lv lr) (node rl rk rv rr) hl hr =
      (hl, AllKeys-min P rl rk rv hr.0 hr.1, AllKeys-drop P rl rk rv rr hr)

  AllKeys-removed {κ} :
      (P : List ℕ → Type κ) (t : TreeNode A) (key : List ℕ)
      → AllKeys P t
      → AllKeys P (removed t key)
  unfolding removed
  AllKeys-removed P null key h = tt
  AllKeys-removed P (node l k v r) key h = elim (Sign-cases (strcmp key k)) [
    | inl e ↦ rw e (AllKeys-removed_here P l r h.0 h.2)
    | inr (inl e) ↦ rw e (AllKeys-removed P l key h.0, h.1, h.2)
    | inr (inr e) ↦ rw e (h.0, h.1, AllKeys-removed P r key h.2)
  ]

  IsOrdered-removed_here :
      (l : TreeNode A) (k : List ℕ) (r : TreeNode A)
      → IsOrdered l
      → IsOrdered r
      → Below k l
      → Above k r
      → IsOrdered (removed_here l r)
  IsOrdered-removed_here null k r ol or_ hl hr = or_
  IsOrdered-removed_here (node ll lk lv lr) k null ol or_ hl hr = ol
  IsOrdered-removed_here (node ll lk lv lr) k (node rl rk rv rr) ol or_ hl hr =
      let least_of = (min_value_node rl rk rv).0 in
      let after : strcmp k least_of ≡ negative =
        AllKeys-min (λ k'. strcmp k k' ≡ negative) rl rk rv hr.0 hr.1 in
      (
        ol,
        IsOrdered-drop rl rk rv rr or_,
        Below-more least_of k (node ll lk lv lr) (negative-flip k least_of after) hl,
        Above-drop rl rk rv rr or_,
      )

  pub IsOrdered-removed : (t : TreeNode A) (key : List ℕ) → IsOrdered t → IsOrdered (removed t key)
  unfolding removed
  IsOrdered-removed null key h = tt
  IsOrdered-removed (node l k v r) key (ol, or_, hl, hr) = elim (Sign-cases (strcmp key k)) [
    | inl e ↦ rw e (IsOrdered-removed_here l k r ol or_ hl hr)
    | inr (inl e) ↦ rw e (
      IsOrdered-removed l key ol,
      or_,
      AllKeys-removed (λ k'. strcmp k k' ≡ positive) l key hl,
      hr,
    )
    | inr (inr e) ↦ rw e (
      ol,
      IsOrdered-removed r key or_,
      hl,
      AllKeys-removed (λ k'. strcmp k k' ≡ negative) r key hr,
    )
  ]
