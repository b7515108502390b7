-- ===== src/Client/Tree/Order.antt =====
-- The order of the keys in the tree of client/src/tree.c, and what it says of a search.
use pvs_kp.Base.{
  ℕ, ◌≡◌, refl, ap, ◌∙◌, ◌⊎◌, inl, inr, true, none, List, [], ◌∷◌, arith, ◌==◌, Bool-cases, ==→eq,
}
use pvs_kp.Client.Tree.{
  Sign, negative, equal, positive, strcmp, TreeNode, null, node, tree_node_search,
}

abbrev pub flip : Sign → Sign
flip negative = positive
flip equal = equal
flip positive = negative

pub strcmp-flip : (as' bs : List ℕ) → strcmp bs as' ≡ flip (strcmp as' bs)
unfolding strcmp
strcmp-flip [] [] = refl
strcmp-flip [] (b ∷ bs) = refl
strcmp-flip (a ∷ as') [] = refl
strcmp-flip (a ∷ as') (b ∷ bs) = ground (arith, strcmp-flip as' bs)

pub strcmp-less :
    (as' bs cs : List ℕ)
    → strcmp as' bs ≡ negative
    → strcmp bs cs ≡ negative
    → strcmp as' cs ≡ negative
unfolding strcmp
strcmp-less [] [] cs h g = cc
strcmp-less [] (b ∷ bs) [] h g = cc
strcmp-less [] (b ∷ bs) (c ∷ cs) h g = refl
strcmp-less (a ∷ as') [] cs h g = cc
strcmp-less (a ∷ as') (b ∷ bs) [] h g = cc g
strcmp-less (a ∷ as') (b ∷ bs) (c ∷ cs) h g = ground (arith, strcmp-less as' bs cs, h, g)

pub negative-flip : (a b : List ℕ) → strcmp a b ≡ negative → strcmp b a ≡ positive
negative-flip a b h = strcmp-flip a b ∙ ap flip h

pub positive-flip : (a b : List ℕ) → strcmp a b ≡ positive → strcmp b a ≡ negative
positive-flip a b h = strcmp-flip a b ∙ ap flip h

pub strcmp-equal : (as' bs : List ℕ) → strcmp as' bs ≡ equal → as' ≡ bs
unfolding strcmp
strcmp-equal [] [] h = refl
strcmp-equal [] (b ∷ bs) h = cc h
strcmp-equal (a ∷ as') [] h = cc h
strcmp-equal (a ∷ as') (b ∷ bs) h = elim (Bool-cases (a == b)) [
  | inl same ↦
      ap (λ c. c ∷ as') (==→eq _ _ same) ∙ ap (λ l. b ∷ l) (strcmp-equal as' bs (tails same))
  | inr other ↦ ground (arith, h, other)
]
  where
    tails : (a == b) ≡ true → strcmp as' bs ≡ equal
    tails same = ground (arith, h, same)

pub strcmp_refl : (as' : List ℕ) → strcmp as' as' ≡ equal
unfolding strcmp
strcmp_refl [] = refl
strcmp_refl (a ∷ as') = ground (arith, strcmp_refl as')

pub Sign-cases : (s : Sign) → (s ≡ equal) ⊎ (s ≡ negative) ⊎ (s ≡ positive)
Sign-cases equal = inl refl
Sign-cases negative = inr (inl refl)
Sign-cases positive = inr (inr refl)

module _ {ℓ} {A : Type ℓ} where
  abbrev pub AllKeys {κ} : (List ℕ → Type κ) → TreeNode A → Type κ
  AllKeys P null = Unit
  AllKeys P (node l k v r) = AllKeys P l × P k × AllKeys P r

  -- Every key of the tree is after this one, or before it.
  abbrev pub Above : List ℕ → TreeNode A → Type 0
  Above key t = AllKeys (λ k. strcmp key k ≡ negative) t

  abbrev pub Below : List ℕ → TreeNode A → Type 0
  Below key t = AllKeys (λ k. strcmp key k ≡ positive) t

  -- A search tree.
  abbrev pub IsOrdered : TreeNode A → Type 0
  IsOrdered null = Unit
  IsOrdered (node l k v r) = IsOrdered l × IsOrdered r × Below k l × Above k r

  pub AllKeys-map {κ λ'} :
      (P : List ℕ → Type κ) (Q : List ℕ → Type λ') (t : TreeNode A)
      → ((k : List ℕ) → P k → Q k)
      → AllKeys P t
      → AllKeys Q t
  AllKeys-map P Q null f h = tt
  AllKeys-map P Q (node l k v r) f h = (AllKeys-map P Q l f h.0, f k h.1, AllKeys-map P Q r f h.2)

  pub Above-less : (a b : List ℕ) (t : TreeNode A) → strcmp a b ≡ negative → Above b t → Above a t
  Above-less a b t h =
      AllKeys-map (λ k. strcmp b k ≡ negative) (λ k. strcmp a k ≡ negative) t
        (λ k. strcmp-less a b k h)

  pub Below-more : (a b : List ℕ) (t : TreeNode A) → strcmp a b ≡ positive → Below b t → Below a t
  Below-more a b t h =
      AllKeys-map (λ k. strcmp b k ≡ positive) (λ k. strcmp a k ≡ positive) t
        (λ k g. negative-flip k a (strcmp-less k b a (positive-flip b k g) (positive-flip a b h)))

  pub tree_node_search-Above :
      (key : List ℕ) (t : TreeNode A) → Above key t → tree_node_search t key ≡ none
  unfolding tree_node_search
  tree_node_search-Above key null h = refl
  tree_node_search-Above key (node l k v r) h = rw (h.1) (tree_node_search-Above key l h.0)

  pub tree_node_search-Below :
      (key : List ℕ) (t : TreeNode A) → Below key t → tree_node_search t key ≡ none
  unfolding tree_node_search
  tree_node_search-Below key null h = refl
  tree_node_search-Below key (node l k v r) h = rw (h.1) (tree_node_search-Below key r h.2)
