-- ===== src/Sorting/Main.antt =====
-- `print_arr` and the first part of `main` of exercises/17_sorting/sorting.c, which runs each sort on
-- the same array.
use c_programming.Prelude.{ℕ, zero, suc, Option, none, some, List, [], ◌∷◌, if◌then◌else◌}
use c_programming.Prelude.Int.{ℤ, pos, negsuc, ltb_ℤ}
use c_programming.Sorting.{Array, write, bubble_sort, insertion_sort, selection_sort}
use c_programming.Sorting.Merge.{merge_sort}
use c_programming.Sorting.Quick.{quick_sort}

-- `(ia > ib) - (ia < ib)`, and the other way round.
unfoldable pub cmp_asc : ℤ → ℤ → ℤ
cmp_asc ia ib = if ltb_ℤ ib ia then pos 1 else if ltb_ℤ ia ib then negsuc 0 else pos 0

unfoldable pub cmp_desc : ℤ → ℤ → ℤ
cmp_desc ia ib = if ltb_ℤ ia ib then pos 1 else if ltb_ℤ ib ia then negsuc 0 else pos 0

-- An array with an initialiser; the other places hold 0.
unfoldable pub initialised : List ℤ → Array
initialised [] i = pos 0
initialised (v ∷ vs) zero = v
initialised (v ∷ vs) (suc i) = initialised vs i

-- `copy_arr`: a `memcpy` of the first `n` places, from place `i` on.
unfoldable pub copy_arr : Array → Array → ℕ → ℕ → Array
copy_arr src dst i zero = dst
copy_arr src dst i (suc n) = copy_arr src (write dst i (src i)) (suc i) n

-- The values that are printed, from place `i` on.
unfoldable pub print_arr : Array → ℕ → ℕ → List ℤ
print_arr a i zero = []
print_arr a i (suc n) = a i ∷ print_arr a (suc i) n

abbrev pub original : List ℤ
original =
    pos 64
    ∷ pos 25
    ∷ pos 12
    ∷ pos 22
    ∷ pos 11
    ∷ pos 90
    ∷ pos 37
    ∷ pos 55
    ∷ pos 8
    ∷ pos 43
    ∷ pos 76
    ∷ pos 3
    ∷ []

-- `sorts[i].fn(arr, N)` after the copy, and what is printed. `none`: the program ends or is
-- undefined.
unfoldable pub run_sort : (Array → ℕ → Option Array) → Array → ℕ → Option (List ℤ)
run_sort sort arr n = elim (sort (copy_arr (initialised original) arr 0 n) n) [
  | none ↦ none
  | some sorted ↦ some (print_arr sorted 0 n)
]

unfoldable pub main : Option Array → Array → List (Option (List ℤ))
main malloc arr =
    some (print_arr (initialised original) 0 12)
    ∷ run_sort (λ a n. some (bubble_sort a n)) arr 12
    ∷ run_sort (λ a n. some (insertion_sort a n)) arr 12
    ∷ run_sort (λ a n. some (selection_sort a n)) arr 12
    ∷ run_sort (merge_sort malloc) arr 12
    ∷ run_sort quick_sort arr 12
    ∷ []
