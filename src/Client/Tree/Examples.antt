-- ===== src/Client/Tree/Examples.antt =====
-- A tree of one node, on which the theorem about the tree is applied.
use pvs_kp.Base.{ℕ, ◌+◌, ◌≡◌, ◌≢◌, ◌⊎◌, refl, true, Option, none, some, arith, codes}
use pvs_kp.Client.Tree.{
  TreeCode, success, tree_overflow, pick, strcmp, null, node, Tree, tree_insert, tree_delete,
  tree_search, nodes_to_array,
}
use pvs_kp.Client.Tree.Invariant.{IsTree, tree_insert-IsTree, tree_delete-IsTree}
use pvs_kp.Client.Tree.Lookup.{Inserted, tree_insert-Inserted}

abbrev one : Tree ℕ
one = record { root = node null (codes "m") (some 1) null; size = 1; max_size = 10000 }

abbrev same : Option ℕ → Option ℕ
same value = value

tree_insert-Inserted_example :
    (r : Tree ℕ) × (code : TreeCode) × (tree_insert same true one (codes "a") (some 2)
      ≡ some (r, code))
    × (((code ≡ tree_overflow) × (one.size ≡ one.max_size) × (r ≡ one))
        ⊎ ((one.size ≢ one.max_size)
            × Inserted same true 1 10000
                (codes "a")
                (some 2)
                (codes "m")
                one.root
                r.root
                r.size
                code))
tree_insert-Inserted_example =
    tree_insert-Inserted same true one (codes "a") (some 2) (codes "m") (omega arith)

abbrev three : Tree ℕ
three = record {
  root =
      node (node null (codes "a") (some 2) null) (codes "m") (some 1)
        (node null (codes "z") (some 3) null);
  size = 3;
  max_size = 10000;
}

three-IsTree : IsTree three
unfolding nodes_to_array strcmp
three-IsTree = (
  ((tt, tt, tt, tt), (tt, tt, tt, tt), (tt, refl, tt), (tt, refl, tt)),
  ((tt, refl, tt), refl, (tt, refl, tt)),
  omega arith,
  omega arith,
)

tree_insert-IsTree_example :
    (r : Tree ℕ) × (code : TreeCode) × (tree_insert same true three (codes "q") (some 4)
      ≡ some (r, code))
    × IsTree r
tree_insert-IsTree_example =
    tree_insert-IsTree same true three (codes "q") (some 4) (omega arith) refl three-IsTree

tree_delete-IsTree_example :
    ((tree_search three (codes "m") ≡ none) × (tree_delete same three (codes "m") ≡ none))
    ⊎ ((r : Tree ℕ) × (tree_delete same three (codes "m") ≡ some (r, success))
        × IsTree r
        × (r.size + 1 ≡ three.size)
        × (tree_search r (codes "z")
            ≡ pick
                (strcmp (codes "z") (codes "m"))
                none
                (tree_search three (codes "z"))
                (tree_search three (codes "z"))))
tree_delete-IsTree_example =
    tree_delete-IsTree same three (codes "m") (codes "z") (λ v. refl) three-IsTree
