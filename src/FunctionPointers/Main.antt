-- ===== src/FunctionPointers/Main.antt =====
-- `main` of exercises/11_function_pointers/function_pointers.c: what is printed. The lines on sin, cos
-- and sqrt are left out.
use c_programming.Prelude.{
  ℕ, ◌≡◌, refl, Option, none, some, List, [], ◌∷◌, ◌++◌, if◌then◌else◌, ltb,
}
use c_programming.Prelude.Int.{ℤ, pos, negsuc, ltb_ℤ}
use c_programming.Prelude.Ints.{◌>>=◌}
use c_programming.Prelude.Texts.{Text, bytes}
use c_programming.FunctionPointers.{
  BinaryOp, add, subtract, multiply, print_value, print_doubled, print_square, map, reduce,
  Dispatched, dispatch, get_operation, cmp_int_asc, cmp_int_desc,
}

-- `strcmp`: the sign of the first difference.
cmp_str : Text → Text → ℤ
cmp_str [] [] = pos 0
cmp_str [] (d ∷ ds) = negsuc 0
cmp_str (c ∷ cs) [] = pos 1
cmp_str (c ∷ cs) (d ∷ ds) =
    let rest = cmp_str cs ds in if ltb c d then negsuc 0 else if ltb d c then pos 1 else rest

-- What `qsort` leaves, for a comparator that is an order.
module _ {A : Type 0} (cmp : A → A → ℤ) where
  place : A → List A → List A
  place x [] = x ∷ []
  place x (y ∷ l) = let rest = place x l in if ltb_ℤ (pos 0) (cmp x y) then y ∷ rest else x ∷ y ∷ l

  qsort : List A → List A
  unfolding place
  qsort [] = []
  qsort (x ∷ l) = place x (qsort l)

data Line : Type 0 where
  value : ℤ → Line
  numbers : List ℤ → Line
  answer : Dispatched → Line
  texts : List Text → Line

abbrev arr : List ℤ
arr = pos 1 ∷ pos 2 ∷ pos 3 ∷ pos 4 ∷ pos 5 ∷ []

abbrev nums : List ℤ
nums = pos 42 ∷ pos 7 ∷ pos 19 ∷ pos 3 ∷ pos 55 ∷ pos 1 ∷ pos 28 ∷ []

abbrev words : List Text
words = bytes "banana" ∷ bytes "apple" ∷ bytes "cherry" ∷ bytes "date" ∷ []

-- `if (f) printf(...)`
abbrev if_found : Option BinaryOp → ℤ → ℤ → Option (List Line)
if_found none a b = some []
if_found (some f) a b = f a b >>= λ v. some (value v ∷ [])

main : Option (List Line)
unfolding add subtract multiply map print_doubled print_square reduce dispatch get_operation qsort
    cmp_str cmp_int_asc cmp_int_desc
main = do
  first ← add (pos 3) (pos 4)
  explicit ← add (pos 3) (pos 4)
  product ← multiply (pos 3) (pos 4)
  difference ← subtract (pos 10) (pos 3)
  values ← map arr print_value
  doubled ← map arr print_doubled
  squares ← map arr print_square
  sum ← reduce arr (pos 0) add
  all ← reduce arr (pos 1) multiply
  plus ← if_found (get_operation (pos b'+')) (pos 6) (pos 2)
  minus ← if_found (get_operation (pos b'-')) (pos 6) (pos 2)
  times ← if_found (get_operation (pos b'*')) (pos 6) (pos 2)
  a ← add (pos 8) (pos 3)
  s ← subtract (pos 8) (pos 3)
  m ← multiply (pos 8) (pos 3)
  let ascending = qsort cmp_int_asc nums
  some (
      (value first
        ∷ value explicit
        ∷ value product
        ∷ value difference
        ∷ numbers values
        ∷ numbers doubled
        ∷ numbers squares
        ∷ value sum
        ∷ value all
        ∷ answer (dispatch (pos 10) (pos 3) (pos b'+'))
        ∷ answer (dispatch (pos 10) (pos 3) (pos b'-'))
        ∷ answer (dispatch (pos 10) (pos 3) (pos b'*'))
        ∷ [])
      ++ plus
      ++ minus
      ++ times
      ++ numbers ascending
        ∷ numbers (qsort cmp_int_desc ascending)
        ∷ texts (qsort cmp_str words)
        ∷ value a
        ∷ value s
        ∷ value m
        ∷ [])

abbrev to_z : List ℕ → List ℤ
to_z [] = []
to_z (n ∷ l) = pos n ∷ to_z l

main_printed :
    main
    ≡ some (
        value (pos 7)
        ∷ value (pos 7)
        ∷ value (pos 12)
        ∷ value (pos 7)
        ∷ numbers arr
        ∷ numbers (to_z (2 ∷ 4 ∷ 6 ∷ 8 ∷ 10 ∷ []))
        ∷ numbers (to_z (1 ∷ 4 ∷ 9 ∷ 16 ∷ 25 ∷ []))
        ∷ value (pos 15)
        ∷ value (pos 120)
        ∷ answer (Dispatched.called (some (pos 13)))
        ∷ answer (Dispatched.called (some (pos 7)))
        ∷ answer (Dispatched.called (some (pos 30)))
        ∷ value (pos 8)
        ∷ value (pos 4)
        ∷ value (pos 12)
        ∷ numbers (to_z (1 ∷ 3 ∷ 7 ∷ 19 ∷ 28 ∷ 42 ∷ 55 ∷ []))
        ∷ numbers (to_z (55 ∷ 42 ∷ 28 ∷ 19 ∷ 7 ∷ 3 ∷ 1 ∷ []))
        ∷ texts (bytes "apple" ∷ bytes "banana" ∷ bytes "cherry" ∷ bytes "date" ∷ [])
        ∷ value (pos 11)
        ∷ value (pos 5)
        ∷ value (pos 24)
        ∷ [])
unfolding main
main_printed = refl
