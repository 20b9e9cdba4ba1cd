-- ===== src/LinkedList/Query.antt =====
-- `list_contains`, `list_get` and `list_print` against the values of the list.
use c_programming.Prelude.{
  ℕ, zero, suc, ◌+◌, ◌<◌, ◌≡◌, refl, false, Option, none, some, List, [], ◌∷◌, arith, ◌==◌, length,
  get_elem?,
}
use c_programming.Prelude.Int.{ℤ}
use c_programming.Nodes.{null, Heap, Run, ok, exited}
use c_programming.Nodes.Chain.{Cells, Chain, first, values, load-ok}
use c_programming.LinkedList.{
  IntList, contains, contains_loop, get, get_loop, print, print_loop, rounds, Printed, size_is,
  item, arrow, close,
}
use c_programming.LinkedList.Spec.{IsList, member}

-- How the values of a list are printed.
unfoldable pub printed : List ℤ → List Printed
printed [] = close ∷ []
printed (v ∷ []) = item v ∷ close ∷ []
printed (v ∷ w ∷ vs) = item v ∷ arrow ∷ printed (w ∷ vs)

-- The program ends where there is no value.
abbrev pub answer : Heap → Option ℤ → Run ℤ
answer h none = exited
answer h (some v) = ok v h

module _ (h : Heap) where
  contains_loop-member :
      (k : ℕ) (value : ℤ) (xs : Cells)
      → Chain h xs null
      → length xs < k
      → contains_loop k value (first xs null) h ≡ ok (member value (values xs)) h
  unfolding contains_loop member
  contains_loop-member zero value xs c fuel = absurd (omega arith)
  contains_loop-member (suc k) value [] c fuel = refl
  contains_loop-member (suc k) value ((p, v) ∷ xs) c fuel =
      let live : (p == null) ≡ false = ground (arith, c.0) in
      rw (live, load-ok h (c.0) (c.1))
        (ground (arith, contains_loop-member k value xs (c.3) (omega arith)))

  -- `list_contains` ends without error, changes nothing, and tells whether the value is in the
  -- list.
  pub contains-member :
      (l : IntList) (xs : Cells) (value : ℤ)
      → IsList h l xs
      → contains l value h ≡ ok (member value (values xs)) h
  unfolding contains
  contains-member l xs value is =
      rw is.head (contains_loop-member (l.size + 1) value xs is.chain (omega (arith, is.size)))

  get_loop-answer :
      (k : ℕ) (xs : Cells)
      → Chain h xs null
      → get_loop k (first xs null) h ≡ answer h (get_elem? (values xs) k)
  unfolding get_loop
  get_loop-answer zero [] c = refl
  get_loop-answer (suc k) [] c = refl
  get_loop-answer zero ((p, v) ∷ xs) c =
      let live : (p == null) ≡ false = ground (arith, c.0) in rw (live, load-ok h (c.0) (c.1))
  get_loop-answer (suc k) ((p, v) ∷ xs) c =
      let live : (p == null) ≡ false = ground (arith, c.0) in
      rw (live, load-ok h (c.0) (c.1)) (get_loop-answer k xs (c.3))

  -- `list_get` returns the value at the index, or the first one for a negative index, and ends the
  -- program where there is none; it never reads through a bad pointer.
  pub get-answer :
      (l : IntList) (xs : Cells) (index : ℤ)
      → IsList h l xs
      → get l index h ≡ answer h (get_elem? (values xs) (rounds index))
  unfolding get
  get-answer l xs index is = rw is.head (get_loop-answer (rounds index) xs is.chain)

  print_loop-printed :
      (k : ℕ) (xs : Cells)
      → Chain h xs null
      → length xs < k
      → print_loop k (first xs null) h ≡ ok (printed (values xs)) h
  unfolding print_loop printed
  print_loop-printed zero xs c fuel = absurd (omega arith)
  print_loop-printed (suc k) [] c fuel = refl
  print_loop-printed (suc k) ((p, v) ∷ []) c fuel =
      let live : (p == null) ≡ false = ground (arith, c.0) in
      rw (live, load-ok h (c.0) (c.1), print_loop-printed k [] tt (omega arith))
  print_loop-printed (suc k) ((p, v) ∷ (q, w) ∷ xs) c fuel =
      let live : (p == null) ≡ false = ground (arith, c.0) in
      let next : (q == null) ≡ false = ground (arith, c.3.0) in
      rw (live, load-ok h (c.0) (c.1), next, print_loop-printed k ((q, w) ∷ xs) (c.3) (omega arith))

  -- `list_print` ends without error, changes nothing, and prints the size and the values in
  -- order, with an arrow between two of them.
  pub print-printed :
      (l : IntList) (xs : Cells)
      → IsList h l xs
      → print l h ≡ ok (size_is (length xs) ∷ printed (values xs)) h
  unfolding print
  print-printed l xs is =
      rw (is.head, print_loop-printed (l.size + 1) xs is.chain (omega (arith, is.size)), is.size)
