-- ===== src/Client/Tree/Lookup.antt =====
-- The tree as a finite map: what tree_search finds after a tree_insert.
use mathlib.Core.Path.{subst}
use pvs_kp.Base.{
  ℕ, ◌+◌, ◌<◌, ◌≡◌, ◌≢◌, ◌⊎◌, inl, inr, refl, sym, ap, ◌∙◌, Bool, true, false, not, ◌&&◌, Option,
  none, some, List, arith, length, length-append, ◌==◌, ==→eq, ltb, Bool-cases, lt→ltb,
}
use pvs_kp.Client.Tree.Order.{strcmp-equal, Sign-cases}
use pvs_kp.Client.Tree.{
  TreeCode, success, memory_error, tree_overflow, Sign, pick, negative, equal, positive, strcmp,
  TreeNode, null, node, Tree, is_null, create_node, tree_node_insert, tree_insert, tree_node_search,
  nodes_to_array,
}

-- The branches, where a key goes to the left, to the right or stays.
module _ {ℓ} {B : Type ℓ} (v value x x' y : B) where
  pub goes_left :
      (s t : Sign)
      → (s ≡ equal → t ≡ negative)
      → x' ≡ pick s value x x
      → pick t v x' y ≡ pick s value (pick t v x y) (pick t v x y)
  goes_left equal equal e h = cc (e refl)
  goes_left equal negative e h = h
  goes_left equal positive e h = cc (e refl)
  goes_left negative equal e h = refl
  goes_left negative negative e h = h
  goes_left negative positive e h = refl
  goes_left positive equal e h = refl
  goes_left positive negative e h = h
  goes_left positive positive e h = refl

  pub goes_right :
      (s t : Sign)
      → (s ≡ equal → t ≡ positive)
      → x' ≡ pick s value x x
      → pick t v y x' ≡ pick s value (pick t v y x) (pick t v y x)
  goes_right equal equal e h = cc (e refl)
  goes_right equal positive e h = h
  goes_right equal negative e h = cc (e refl)
  goes_right negative equal e h = refl
  goes_right negative positive e h = h
  goes_right negative negative e h = refl
  goes_right positive equal e h = refl
  goes_right positive positive e h = h
  goes_right positive negative e h = refl

  stays : (s : Sign) → pick s value x y ≡ pick s value (pick s v x y) (pick s v x y)
  stays equal = refl
  stays negative = refl
  stays positive = refl

module _ {ℓ} {A : Type ℓ} where
  -- Reference: the map that finds `value` at `key`, and elsewhere what is found in the tree.
  abbrev pub update : TreeNode A → List ℕ → Option A → List ℕ → Option (Option A)
  update t key value other =
      pick (strcmp other key) (some value) (tree_node_search t other) (tree_node_search t other)

  module _ (k : List ℕ) (v : Option A) (l r : TreeNode A) (key : List ℕ) (value : Option A)
      (other : List ℕ) where
    sign_at : strcmp other key ≡ equal → strcmp other k ≡ strcmp key k
    sign_at e = ap (λ z. strcmp z k) (strcmp-equal other key e)

    update_here :
        strcmp key k ≡ equal
        → tree_node_search (node l k value r) other ≡ update (node l k v r) key value other
    unfolding tree_node_search
    update_here h = rw (strcmp-equal key k h) (
        stays (some v) (some value) (tree_node_search l other) (some v) (tree_node_search r other)
          (strcmp other k))

    update_left :
        (l' : TreeNode A)
        → strcmp key k ≡ negative
        → tree_node_search l' other ≡ update l key value other
        → tree_node_search (node l' k v r) other ≡ update (node l k v r) key value other
    unfolding tree_node_search
    update_left l' h found =
        goes_left (some v) (some value) (tree_node_search l other) (tree_node_search l' other)
          (tree_node_search r other) (strcmp other key) (strcmp other k) (λ e. sign_at e ∙ h) found

    update_right :
        (r' : TreeNode A)
        → strcmp key k ≡ positive
        → tree_node_search r' other ≡ update r key value other
        → tree_node_search (node l k v r') other ≡ update (node l k v r) key value other
    unfolding tree_node_search
    update_right r' h found =
        goes_right (some v) (some value) (tree_node_search r other) (tree_node_search r' other)
          (tree_node_search l other) (strcmp other key) (strcmp other k) (λ e. sign_at e ∙ h) found

is_null-none {ℓ} : {A : Type ℓ} (x : Option A) → is_null x ≡ true → x ≡ none
is_null-none none h = refl
is_null-none (some a) h = cc h

module _ {ℓ} {A : Type ℓ} (copy : Option A → Option A) (has_node : Bool) (size max_size : ℕ)
    (key : List ℕ) (value : Option A) (other : List ℕ) where
  -- The outcomes below the limit: the nodes are counted, and the map is updated, or there was no
  -- memory and the map is as it was or holds NULL at the key.
  abbrev pub Inserted : TreeNode A → TreeNode A → ℕ → TreeCode → Type ℓ
  Inserted t t' size' code =
      (length (nodes_to_array t') + size ≡ length (nodes_to_array t) + size')
      × (((code ≡ success) × (tree_node_search t' other ≡ update t key (copy value) other))
          ⊎ ((code ≡ memory_error)
              × ((tree_node_search t' other ≡ tree_node_search t other)
                  ⊎ (tree_node_search t' other ≡ update t key none other))))

  abbrev InsertedBy : TreeNode A → Type ℓ
  InsertedBy t =
      (t' : TreeNode A) × (size' : ℕ) × (code : TreeCode) × (tree_node_insert copy has_node size
          max_size t key value
        ≡ some (t', size', code))
      × Inserted t t' size' code

  module _ (space : (size == max_size) ≡ false) (short : length key < 255) where
    insert_null : InsertedBy null
    unfolding tree_node_insert create_node tree_node_search nodes_to_array
    insert_null =
        let fits : ltb (length key) 255 ≡ true = lt→ltb _ _ short in
        elim (Bool-cases has_node) [
          | inr refused ↦
              (null, size, memory_error, rw space (rw refused refl), (refl, inr (refl, inl refl)))
          | inl got ↦ elim (Bool-cases (is_null (copy value) && not (is_null value))) [
            | inl uncopied ↦ (
              null,
              size,
              memory_error,
              rw space (rw got (rw uncopied refl)),
              (refl, inr (refl, inl refl)),
            )
            | inr copied ↦ (
              node null key (copy value) null,
              size + 1,
              success,
              rw space (rw got (rw copied (rw fits refl))),
              (omega arith, inl (refl, refl)),
            )
          ]
        ]

    insert_here :
        (k : List ℕ) (v : Option A) (l r : TreeNode A)
        → strcmp key k ≡ equal
        → InsertedBy (node l k v r)
    unfolding tree_node_insert nodes_to_array
    insert_here k v l r h = elim (Bool-cases (is_null (copy value))) [
      | inl empty ↦ (
        node l k (copy value) r,
        size,
        memory_error,
        rw space (rw h (rw empty refl)),
        (
          refl,
          inr (
            refl,
            inr (
                subst
                  (λ z.
                    tree_node_search (node l k z r) other ≡ update (node l k v r) key none other)
                  (sym (is_null-none (copy value) empty)) (update_here k v l r key none other h)),
          ),
        ),
      )
      | inr filled ↦ (
        node l k (copy value) r,
        size,
        success,
        rw space (rw h (rw filled refl)),
        (refl, inl (refl, update_here k v l r key (copy value) other h)),
      )
    ]

    insert_left :
        (k : List ℕ) (v : Option A) (l r : TreeNode A)
        → strcmp key k ≡ negative
        → InsertedBy l
        → InsertedBy (node l k v r)
    unfolding tree_node_insert nodes_to_array tree_node_search
    insert_left k v l r h (l', size', code, run, (count, found)) = (
      node l' k v r,
      size',
      code,
      rw space (rw h (rw run refl)),
      (
        omega (
          arith,
          count,
          length-append (nodes_to_array l') (nodes_to_array r),
          length-append (nodes_to_array l) (nodes_to_array r),
        ),
        elim found [
          | inl (ok, f) ↦ inl (ok, update_left k v l r key (copy value) other l' h f)
          | inr (bad, inl f) ↦
              inr
                (bad, inl (ap (λ z. pick (strcmp other k) (some v) z (tree_node_search r other)) f))
          | inr (bad, inr f) ↦ inr (bad, inr (update_left k v l r key none other l' h f))
        ],
      ),
    )

    insert_right :
        (k : List ℕ) (v : Option A) (l r : TreeNode A)
        → strcmp key k ≡ positive
        → InsertedBy r
        → InsertedBy (node l k v r)
    unfolding tree_node_insert nodes_to_array tree_node_search
    insert_right k v l r h (r', size', code, run, (count, found)) = (
      node l k v r',
      size',
      code,
      rw space (rw h (rw run refl)),
      (
        omega (
          arith,
          count,
          length-append (nodes_to_array l) (nodes_to_array r'),
          length-append (nodes_to_array l) (nodes_to_array r),
        ),
        elim found [
          | inl (ok, f) ↦ inl (ok, update_right k v l r key (copy value) other r' h f)
          | inr (bad, inl f) ↦
              inr
                (bad, inl (ap (λ z. pick (strcmp other k) (some v) (tree_node_search l other) z) f))
          | inr (bad, inr f) ↦ inr (bad, inr (update_right k v l r key none other r' h f))
        ],
      ),
    )

    tree_node_insert-InsertedBy : (t : TreeNode A) → InsertedBy t
    tree_node_insert-InsertedBy null = insert_null
    tree_node_insert-InsertedBy (node l k v r) =
        let in_left = tree_node_insert-InsertedBy l in
        let in_right = tree_node_insert-InsertedBy r in
        elim (Sign-cases (strcmp key k)) [
          | inl e ↦ insert_here k v l r e
          | inr (inl e) ↦ insert_left k v l r e in_left
          | inr (inr e) ↦ insert_right k v l r e in_right
        ]

module _ {ℓ} {A : Type ℓ} where
  pub insert-full :
      (copy : Option A → Option A) (has_node : Bool) (size max_size : ℕ) (t : TreeNode A)
      (key : List ℕ) (value : Option A)
      → (size == max_size) ≡ true
      → tree_node_insert copy has_node size max_size t key value ≡ some (t, size, tree_overflow)
  unfolding tree_node_insert
  insert-full copy has_node size max_size null key value h = rw h refl
  insert-full copy has_node size max_size (node l k v r) key value h = rw h refl

  -- Whatever malloc and the copy constructor answer, an insertion of a key of less than 255 bytes
  -- is defined. At the limit it returns TREE_OVERFLOW and changes nothing. Below it the tree's
  -- size changes by as much as the number of its nodes, and at every key tree_search finds what an
  -- updated map holds; or it returns MEMORY_ERROR, and at that key is what was found before, or the
  -- map updated with NULL.
  pub tree_insert-Inserted :
      (copy : Option A → Option A) (has_node : Bool) (tree : Tree A) (key : List ℕ)
      (value : Option A) (other : List ℕ)
      → length key < 255
      → (r : Tree A) × (code : TreeCode) × (tree_insert copy has_node tree key value
          ≡ some (r, code))
        × (((code ≡ tree_overflow) × (tree.size ≡ tree.max_size) × (r ≡ tree))
            ⊎ ((tree.size ≢ tree.max_size)
                × Inserted copy has_node tree.size tree.max_size key value other tree.root r.root
                    r.size code))
  unfolding tree_insert
  tree_insert-Inserted copy has_node tree key value other short =
      elim (Bool-cases (tree.size == tree.max_size)) [
        | inl e ↦ (
          tree,
          tree_overflow,
          rw (insert-full copy has_node tree.size tree.max_size tree.root key value e) refl,
          inl (refl, ==→eq _ _ e, refl),
        )
        | inr space ↦
            let (t', size', code, run, done) =
              tree_node_insert-InsertedBy copy has_node tree.size tree.max_size key value other
                space short tree.root in
            (
              record tree { root = t'; size = size' },
              code,
              rw run refl,
              inr (ground (arith, space), done),
            )
      ]
