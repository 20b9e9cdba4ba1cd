-- ===== src/LinkedList/Main.antt =====
-- `main` of exercises/10_linked_lists/linked_lists.c.
use c_programming.Prelude.{ℕ, Bool, List, [], ◌∷◌}
use c_programming.Prelude.Int.{ℤ, pos}
use c_programming.Nodes.{Ptr, Cmd, pure, ◌>>=◌, ◌>>◌}
use c_programming.LinkedList.{
  create, destroy, push_front, push_back, insert_at, pop_front, delete_value, delete_at, contains,
  get, reverse, print, Printed,
}

-- A line of the output, without the titles: a list, or the number that follows a label.
pub data Line : Type 0 where
  shown : List Printed → Line
  number : ℤ → Line
  truth : Bool → Line
  count : ℕ → Line

-- `malloc n` is the answer to the n-th request.
unfoldable pub main : (ℕ → Ptr) → Cmd (List Line)
main malloc = do
  list ← create (malloc 0)
  list ← push_back (malloc 1) list (pos 10)
  list ← push_back (malloc 2) list (pos 20)
  list ← push_back (malloc 3) list (pos 30)
  a ← print list
  list ← push_front (malloc 4) list (pos 5)
  b ← print list
  list ← insert_at (malloc 5) list (pos 2) (pos 15)
  c ← print list
  list ← insert_at (malloc 6) list (pos 0) (pos 1)
  d ← print list
  first ← get list (pos 0)
  fourth ← get list (pos 3)
  has_15 ← contains list (pos 15)
  has_99 ← contains list (pos 99)
  let size = list.size
  (val, list) ← pop_front list
  e ← print list
  list ← delete_value list (pos 15)
  f ← print list
  list ← delete_value list (pos 5)
  g ← print list
  list ← delete_value list (pos 30)
  h ← print list
  list ← delete_value list (pos 99)
  i ← print list
  list ← push_back (malloc 7) list (pos 30)
  list ← push_back (malloc 8) list (pos 40)
  j ← print list
  list ← delete_at list (pos 1)
  k ← print list
  list ← push_back (malloc 9) list (pos 50)
  list ← push_back (malloc 10) list (pos 60)
  l ← print list
  list ← reverse list
  m ← print list
  destroy list
  pure (
      shown a
      ∷ shown b
      ∷ shown c
      ∷ shown d
      ∷ number first
      ∷ number fourth
      ∷ truth has_15
      ∷ truth has_99
      ∷ count size
      ∷ number val
      ∷ shown e
      ∷ shown f
      ∷ shown g
      ∷ shown h
      ∷ shown i
      ∷ shown j
      ∷ shown k
      ∷ shown l
      ∷ shown m
      ∷ [])
