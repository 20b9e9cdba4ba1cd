-- ===== src/SearchTree/Tests.antt =====
-- A run of `main`, and the theorems at a concrete tree.
use c_programming.Prelude.{suc, ◌≡◌, refl, true, false, some, [], ◌∷◌, arith}
use c_programming.Prelude.Int.{ℤ, pos, eq_of_==ℤ}
use c_programming.Nodes.{Ptr}
use c_programming.SearchTree.{
  Tree, empty, node, insert, delete, destroy, search, contains, min, max, inorder, preorder,
  postorder, height, count, print, Cut,
}
use c_programming.SearchTree.Member.{mem, IsBst}
use c_programming.SearchTree.Insert.{Inserted, insert-Inserted}
use c_programming.SearchTree.Delete.{Deleted, delete-Deleted}
use c_programming.SearchTree.Order.{IsAscending, member, inorder-IsAscending}
use c_programming.SearchTree.Main.{drawn, walk, number, value, found, freed, main}

program : Unit {0}
unfolding insert delete destroy search contains min max inorder preorder postorder height count
    print main
program = tt

main_output :
    main suc
    ≡ some (
        drawn (
          (2, pos 80)
          ∷ (1, pos 70)
          ∷ (2, pos 60)
          ∷ (0, pos 50)
          ∷ (3, pos 45)
          ∷ (2, pos 40)
          ∷ (3, pos 35)
          ∷ (1, pos 30)
          ∷ (2, pos 20)
          ∷ (3, pos 10)
          ∷ [])
        ∷ walk (
            pos 10
            ∷ pos 20
            ∷ pos 30
            ∷ pos 35
            ∷ pos 40
            ∷ pos 45
            ∷ pos 50
            ∷ pos 60
            ∷ pos 70
            ∷ pos 80
            ∷ [])
        ∷ walk (
            pos 50
            ∷ pos 30
            ∷ pos 20
            ∷ pos 10
            ∷ pos 40
            ∷ pos 35
            ∷ pos 45
            ∷ pos 70
            ∷ pos 60
            ∷ pos 80
            ∷ [])
        ∷ walk (
            pos 10
            ∷ pos 20
            ∷ pos 35
            ∷ pos 45
            ∷ pos 40
            ∷ pos 30
            ∷ pos 60
            ∷ pos 80
            ∷ pos 70
            ∷ pos 50
            ∷ [])
        ∷ number 10
        ∷ number 4
        ∷ value (pos 10)
        ∷ value (pos 80)
        ∷ found true
        ∷ found false
        ∷ found true
        ∷ found false
        ∷ walk (pos 20 ∷ pos 30 ∷ pos 35 ∷ pos 40 ∷ pos 45 ∷ pos 50 ∷ pos 60 ∷ pos 70 ∷ pos 80 ∷ [])
        ∷ walk (pos 30 ∷ pos 35 ∷ pos 40 ∷ pos 45 ∷ pos 50 ∷ pos 60 ∷ pos 70 ∷ pos 80 ∷ [])
        ∷ walk (pos 35 ∷ pos 40 ∷ pos 45 ∷ pos 50 ∷ pos 60 ∷ pos 70 ∷ pos 80 ∷ [])
        ∷ walk (pos 35 ∷ pos 40 ∷ pos 45 ∷ pos 60 ∷ pos 70 ∷ pos 80 ∷ [])
        ∷ drawn
            ((2, pos 80) ∷ (1, pos 70) ∷ (0, pos 60) ∷ (2, pos 45) ∷ (1, pos 40) ∷ (2, pos 35) ∷ [])
        ∷ number 6
        ∷ number 3
        ∷ freed (9 ∷ 10 ∷ 5 ∷ 7 ∷ 3 ∷ 1 ∷ [])
        ∷ [])
unfolding program
main_output = refl

abbrev sample : Tree
sample = node 2 (node 1 empty (pos 10) empty) (pos 20) (node 3 empty (pos 30) empty)

leaf-IsBst : (a : Ptr) (v : ℤ) → IsBst (node a empty v empty)
unfolding mem
leaf-IsBst a v = (tt, tt, λ u m. cc, λ u m. cc)

sample-IsBst : IsBst sample
unfolding mem
sample-IsBst = (
  leaf-IsBst 1 (pos 10),
  leaf-IsBst 3 (pos 30),
  λ u m. ground (arith, eq_of_==ℤ u (pos 10)),
  λ u m. ground (arith, eq_of_==ℤ u (pos 30)),
)

insert-Inserted_example :
    (t : Tree) × (insert 4 sample (pos 15) ≡ some t) × Inserted sample (pos 15) t
insert-Inserted_example = insert-Inserted 4 sample (pos 15) (omega arith) sample-IsBst

delete-Deleted_example : (c : Cut) × (delete sample (pos 20) ≡ some c) × Deleted sample (pos 20) c
delete-Deleted_example = delete-Deleted sample (pos 20) sample-IsBst

inorder-IsAscending_example :
    IsAscending (inorder sample) × ((v : ℤ) → member v (inorder sample) ≡ mem v sample)
inorder-IsAscending_example = inorder-IsAscending sample sample-IsBst
