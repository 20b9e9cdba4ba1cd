-- ===== src/SearchTree/Main.antt =====
-- `main` of exercises/15_binary_search_tree/bst.c.
use c_programming.Prelude.{ℕ, ◌+◌, Bool, Option, some, List, [], ◌∷◌}
use c_programming.Prelude.Int.{ℤ, pos}
use c_programming.Nodes.{Ptr}
use c_programming.SearchTree.{
  Tree, empty, insert, delete, destroy, search, present, min, max, value_at, inorder, preorder,
  postorder, height, count, print, ◌>>=◌,
}

-- What is printed, without the titles.
pub data Line : Type 0 where
  drawn : List (ℕ × ℤ) → Line
  walk : List ℤ → Line
  number : ℕ → Line
  value : ℤ → Line
  found : Bool → Line
  freed : List Ptr → Line

-- The loop over `values[]`; the n-th node stands where the n-th request of memory is answered.
pub insert_all : (ℕ → Ptr) → ℕ → List ℤ → Tree → Option Tree
insert_all malloc i [] root = some root
insert_all malloc i (v ∷ vs) root =
    insert (malloc i) root v >>= (λ root'. insert_all malloc (i + 1) vs root')

abbrev pub starting_values : List ℤ
starting_values =
    pos 50 ∷ pos 30 ∷ pos 70 ∷ pos 20 ∷ pos 40 ∷ pos 60 ∷ pos 80 ∷ pos 10 ∷ pos 35 ∷ pos 45 ∷ []

unfoldable pub main : (ℕ → Ptr) → Option (List Line)
unfolding insert_all
main malloc = do
  root ← insert_all malloc 0 starting_values empty
  least ← value_at (min root)
  greatest ← value_at (max root)
  (t₁, _) ← delete root (pos 10)
  (t₂, _) ← delete t₁ (pos 20)
  (t₃, _) ← delete t₂ (pos 30)
  (t₄, _) ← delete t₃ (pos 50)
  some (
      drawn (print root 0)
      ∷ walk (inorder root)
      ∷ walk (preorder root)
      ∷ walk (postorder root)
      ∷ number (count root)
      ∷ number (height root)
      ∷ value least
      ∷ value greatest
      ∷ found (present (search root (pos 40)))
      ∷ found (present (search root (pos 55)))
      ∷ found (present (search root (pos 10)))
      ∷ found (present (search root (pos 99)))
      ∷ walk (inorder t₁)
      ∷ walk (inorder t₂)
      ∷ walk (inorder t₃)
      ∷ walk (inorder t₄)
      ∷ drawn (print t₄ 0)
      ∷ number (count t₄)
      ∷ number (height t₄)
      ∷ freed (destroy t₄)
      ∷ [])
