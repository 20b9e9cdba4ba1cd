-- ===== src/Variadic/Main.antt =====
-- The calls of the sections of exercises/22_variadic/variadic.c, with what they print. Doubles are
-- tenths, so that the values of the exercise are exact.
use c_programming.Prelude.{ℕ, ◌/◌, ◌≡◌, refl, true, Option, some, List, [], ◌∷◌}
use c_programming.Prelude.Int.{ℤ, pos, negsuc, ltb_ℤ}
use c_programming.Prelude.Ints.{◌>>=◌, ◌+ℤ◌, ◌-ℤ◌, ◌*ℤ◌}
use c_programming.Prelude.Texts.{Text, bytes}
use c_programming.Variadic.{
  Arg, an_int, a_double, a_string, null, Double, sum, maxd, join, count_args, print_all, stats,
}
use c_programming.Variadic.Printf.{
  varg_int, varg_double, varg_str, Line, int_line, double_line, str_line, print_vargs, CType,
  type_name,
}

tenths : Double ℤ
tenths = record {
  zero_value = pos 0;
  plus = λ a b. a +ℤ b;
  minus = λ a b. a -ℤ b;
  times = λ a b. a *ℤ b;
  over = λ a n. elim a [ pos m ↦ pos (m / n) | negsuc m ↦ negsuc (m / n) ];
  greater = λ a b. ltb_ℤ b a;
}

ints : List ℕ → List (Arg ℤ)
ints [] = []
ints (n ∷ l) = an_int (pos n) ∷ ints l

section_basics : Option (ℤ × ℤ × ℤ × ℤ × Option Text)
unfolding sum maxd join tenths ints
section_basics = do
  three ← sum 3 (ints (1 ∷ 2 ∷ 3 ∷ []))
  five ← sum 5 (ints (10 ∷ 20 ∷ 30 ∷ 40 ∷ 50 ∷ []))
  zero_args ← sum {D = ℤ} 0 []
  best ←
      maxd tenths 4
        (a_double (pos 11) ∷ a_double (pos 99) ∷ a_double (pos 33) ∷ a_double (pos 77) ∷ [])
  s ← join {D = ℤ} true 4 (
      a_string (bytes "Hello")
      ∷ a_string (bytes ", ")
      ∷ a_string (bytes "world")
      ∷ a_string (bytes "!")
      ∷ [])
  some (three, five, zero_args, best, s)

basics_printed : section_basics ≡ some (pos 6, pos 150, pos 0, pos 99, some (bytes "Hello, world!"))
unfolding section_basics ◌+ℤ◌
basics_printed = refl

section_sentinel : Option (ℕ × List Text)
unfolding count_args print_all
section_sentinel = do
  n ←
      count_args {D = ℤ} (some (bytes "a"))
        (a_string (bytes "b") ∷ a_string (bytes "c") ∷ null ∷ [])
  lines ←
      print_all {D = ℤ} (some (bytes "alpha"))
        (a_string (bytes "beta") ∷ a_string (bytes "gamma") ∷ a_string (bytes "delta") ∷ null ∷ [])
  some (n, lines)

sentinel_printed :
    section_sentinel ≡ some (3, bytes "alpha" ∷ bytes "beta" ∷ bytes "gamma" ∷ bytes "delta" ∷ [])
unfolding section_sentinel
sentinel_printed = refl

-- The mean of 2, 4, 4, 4 and 6 is 4.0, and the variance 1.6 is 160 hundredths.
section_va_copy : Option (ℤ × ℤ)
unfolding stats tenths
section_va_copy = stats tenths 5 (
    a_double (pos 20)
    ∷ a_double (pos 40)
    ∷ a_double (pos 40)
    ∷ a_double (pos 40)
    ∷ a_double (pos 60)
    ∷ [])

va_copy_printed : section_va_copy ≡ some (pos 40, pos 160)
unfolding section_va_copy ◌+ℤ◌ ◌-ℤ◌ ◌*ℤ◌
va_copy_printed = refl

section_type_safe : Option (List (Line ℤ)) × List Text
unfolding print_vargs type_name
section_type_safe = (
  print_vargs 5 (
      varg_int (pos 42)
      ∷ varg_double (pos 31)
      ∷ varg_str (bytes "hello")
      ∷ varg_int (negsuc 6)
      ∷ varg_double (pos 27)
      ∷ []),
  type_name CType.int
      ∷ type_name CType.double
      ∷ type_name CType.const_char_pointer
      ∷ type_name CType.float
      ∷ [],
)

type_safe_printed : section_type_safe ≡ (
  some (
      int_line (pos 42)
      ∷ double_line (pos 31)
      ∷ str_line (bytes "hello")
      ∷ int_line (negsuc 6)
      ∷ double_line (pos 27)
      ∷ []),
  bytes "int" ∷ bytes "double" ∷ bytes "const char *" ∷ bytes "float" ∷ [],
)
unfolding section_type_safe
type_safe_printed = refl
