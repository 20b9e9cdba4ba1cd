-- ===== src/Variadic.antt =====
-- exercises/22_variadic/variadic.c: functions that read an argument list of any length. The types are
-- those of the caller's values; to read past the end, or as another type, is undefined: `none`.
pub mod Join
pub mod Printf
mod Main
mod Tests
use c_programming.Prelude.{
  ℕ, zero, suc, ◌+◌, ◌-◌, ◌≡◌, Bool, true, false, Option, none, some, List, [], ◌∷◌, ◌++◌,
  if◌then◌else◌, ltb, leb, ◌==◌, length, take,
}
use c_programming.Prelude.Int.{ℤ, pos, negsuc}
use c_programming.Prelude.Ints.{add_int, ◌>>=◌}
use c_programming.Prelude.Texts.{Text, bytes}

-- An argument after the promotions; `D` is `double`.
pub data Arg (D : Type 0) : Type 0 where
  an_int : ℤ → Arg D
  a_double : D → Arg D
  a_string : Text → Arg D
  null : Arg D

-- The operations on `double` that the exercise uses.
pub record Double (D : Type 0) : Type 0 where
  pub zero_value : D
  pub plus : D → D → D
  pub minus : D → D → D
  pub times : D → D → D
  pub over : D → ℕ → D
  pub greater : D → D → Bool

-- `strcat(out, s)` in a block of `size` bytes; `none` writes behind it.
abbrev pub strcat : ℕ → Text → Text → Option Text
strcat size out s = if ltb (length out + length s) size then some (out ++ s) else none

module _ {D : Type 0} where
  -- `va_arg`: the value, and the arguments that are left.
  abbrev pub int_arg : List (Arg D) → Option (ℤ × List (Arg D))
  int_arg (an_int i ∷ ap) = some (i, ap)
  int_arg ap = none

  abbrev pub double_arg : List (Arg D) → Option (D × List (Arg D))
  double_arg (a_double d ∷ ap) = some (d, ap)
  double_arg ap = none

  -- A string may be null.
  abbrev pub string_arg : List (Arg D) → Option (Option Text × List (Arg D))
  string_arg (a_string s ∷ ap) = some (some s, ap)
  string_arg (null ∷ ap) = some (none, ap)
  string_arg ap = none

  -- What `strlen` and `strcat` need.
  abbrev pub text_arg : List (Arg D) → Option (Text × List (Arg D))
  text_arg (a_string s ∷ ap) = some (s, ap)
  text_arg ap = none

  unfoldable pub sum_loop : ℕ → ℤ → List (Arg D) → Option ℤ
  unfolding add_int
  sum_loop zero total ap = some total
  sum_loop (suc left) total ap =
      int_arg ap >>= λ (v, ap'). add_int total v >>= λ total'. sum_loop left total' ap'

  unfoldable pub sum : ℕ → List (Arg D) → Option ℤ
  unfolding sum_loop
  sum n ap = sum_loop n (pos 0) ap

  -- The first pass of `join`: the length of the result with its 0.
  unfoldable pub measure : ℕ → ℕ → List (Arg D) → Option ℕ
  measure zero total ap = some total
  measure (suc left) total ap = text_arg ap >>= λ (s, ap'). measure left (total + length s) ap'

  unfoldable pub copy : ℕ → ℕ → Text → List (Arg D) → Option Text
  copy size zero out ap = some out
  copy size (suc left) out ap =
      text_arg ap >>= λ (s, ap'). strcat size out s >>= λ out'. copy size left out' ap'

  -- `some none`: malloc answers null.
  unfoldable pub join : Bool → ℕ → List (Arg D) → Option (Option Text)
  unfolding measure copy
  join malloc n ap = measure n 1 ap >>= λ total.
      if malloc
      then (if ltb 0 total then (copy total n [] ap >>= λ out. some (some out)) else none)
      else some none

  -- The loops that end at the null argument.
  unfoldable pub count_loop : ℕ → List (Arg D) → Option ℕ
  count_loop n [] = none
  count_loop n (a_string s ∷ ap) = count_loop (n + 1) ap
  count_loop n (null ∷ ap) = some n
  count_loop n (an_int i ∷ ap) = none
  count_loop n (a_double d ∷ ap) = none

  unfoldable pub count_args : Option Text → List (Arg D) → Option ℕ
  unfolding count_loop
  count_args none ap = some 0
  count_args (some first) ap = count_loop 1 ap

  unfoldable pub print_loop : List (Arg D) → Option (List Text)
  print_loop [] = none
  print_loop (a_string s ∷ ap) = print_loop ap >>= λ lines. some (s ∷ lines)
  print_loop (null ∷ ap) = some []
  print_loop (an_int i ∷ ap) = none
  print_loop (a_double d ∷ ap) = none

  unfoldable pub print_all : Option Text → List (Arg D) → Option (List Text)
  unfolding print_loop
  print_all none ap = some []
  print_all (some first) ap = print_loop ap >>= λ lines. some (first ∷ lines)

  module _ (d : Double D) where
    unfoldable pub max_loop : ℕ → D → List (Arg D) → Option D
    max_loop zero best ap = some best
    max_loop (suc left) best ap =
        double_arg ap >>= λ (v, ap'). max_loop left (if d.greater v best then v else best) ap'

    -- The first value is read whatever `n` is.
    unfoldable pub maxd : ℕ → List (Arg D) → Option D
    unfolding max_loop
    maxd n ap = double_arg ap >>= λ (best, ap'). max_loop (n - 1) best ap'

    unfoldable pub mean_loop : ℕ → D → List (Arg D) → Option D
    mean_loop zero sum_v ap = some sum_v
    mean_loop (suc left) sum_v ap =
        double_arg ap >>= λ (v, ap'). mean_loop left (d.plus sum_v v) ap'

    unfoldable pub square_loop : ℕ → D → D → List (Arg D) → Option D
    square_loop zero mean sq ap = some sq
    square_loop (suc left) mean sq ap = double_arg ap >>= λ (v, ap').
        let diff = d.minus v mean in square_loop left mean (d.plus sq (d.times diff diff)) ap'

    -- The mean and the variance; the second pass reads the copy of the list.
    unfoldable pub stats : ℕ → List (Arg D) → Option (D × D)
    unfolding mean_loop square_loop
    stats n ap =
        let ap2 = ap in
        mean_loop n d.zero_value ap >>= λ sum_v.
        square_loop n (d.over sum_v n) d.zero_value ap2 >>= λ sq. some (d.over sum_v n, d.over sq n)
