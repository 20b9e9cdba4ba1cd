-- ===== src/Variadic/Printf.antt =====
-- The wrappers of vsnprintf and the tagged values of exercises/22_variadic/variadic.c. What vsnprintf
-- makes of a format and its arguments is a parameter: the whole text, or an error.
use c_programming.Prelude.{
  ℕ, zero, suc, ◌+◌, ◌-◌, ◌≤◌, ◌≡◌, refl, ap, Bool, true, false, Option, none, some, List, [], ◌∷◌,
  if◌then◌else◌, length, take, arith,
}
use c_programming.Prelude.Int.{ℤ}
use c_programming.Prelude.Ints.{◌>>=◌}
use c_programming.Prelude.Texts.{Text, bytes}

pub data LogLevel : Type 0 where
  log_info log_warn log_error : LogLevel

unfoldable pub level_name : LogLevel → Text
level_name log_info = bytes "INFO "
level_name log_warn = bytes "WARN "
level_name log_error = bytes "ERROR"

-- A format with its arguments.
module _ {F : Type 0} (formatted : F → Option Text) where
  -- `vsnprintf(buf, size, ...)`: what is written to `buf` before its 0, nothing for size 0, and the
  -- length of the whole text; `none` is a negative result.
  abbrev pub vsnprintf : ℕ → F → Option (Text × ℕ)
  vsnprintf size fmt = formatted fmt >>= λ text. some (take (size - 1) text, length text)

  -- The line `[level] text` that is printed; the buffer holds 512 bytes.
  unfoldable pub log_msg : LogLevel → F → Option (Text × Text)
  unfolding level_name
  log_msg level fmt = vsnprintf 512 fmt >>= λ (buf, n). some (level_name level, buf)

  -- A copy of the list is read to fill the block; `none` is a null result.
  unfoldable pub fmt_alloc : Bool → F → Option Text
  fmt_alloc malloc fmt = vsnprintf 0 fmt >>= λ (_, needed).
      if malloc then (vsnprintf (needed + 1) fmt >>= λ (buf, _). some buf) else none

take_all : (t : Text) (n : ℕ) → length t ≡ n → take n t ≡ t
take_all [] zero e = refl
take_all [] (suc n) e = refl
take_all (c ∷ t) zero e = absurd (omega arith)
take_all (c ∷ t) (suc n) e = ap (λ r. c ∷ r) (take_all t n (omega arith))

length-take : (n : ℕ) (t : Text) → length (take n t) ≤ n
length-take zero t = omega arith
length-take (suc n) [] = omega arith
length-take (suc n) (c ∷ t) = omega (arith, length-take n t)

-- fmt_alloc returns the whole text of the format, however long, where malloc answers memory, and null
-- where it does not or the format is wrong. log_msg prints at most 511 characters of it.
pub fmt_alloc-formatted :
    (F : Type 0) (formatted : F → Option Text) (level : LogLevel) (fmt : F) (text : Text)
    → formatted fmt ≡ some text
    → (fmt_alloc formatted true fmt ≡ some text)
      × (fmt_alloc formatted false fmt ≡ none)
      × (log_msg formatted level fmt ≡ some (level_name level, take 511 text))
      × (length (take 511 text) ≤ 511)
unfolding fmt_alloc log_msg
fmt_alloc-formatted F formatted level fmt text e = (
  rw e (ap some (take_all text (length text + 1 - 1) (omega arith))),
  rw e refl,
  rw e refl,
  length-take 511 text,
)

-- `VArg`: the constructor is the tag.
pub data VArg (D : Type 0) : Type 0 where
  varg_int : ℤ → VArg D
  varg_double : D → VArg D
  varg_str : Text → VArg D

pub data Line (D : Type 0) : Type 0 where
  int_line : ℤ → Line D
  double_line : D → Line D
  str_line : Text → Line D

module _ {D : Type 0} where
  -- The loop of `print_vargs`; `none` reads past the last argument.
  unfoldable pub print_vargs : ℕ → List (VArg D) → Option (List (Line D))
  print_vargs zero ap = some []
  print_vargs (suc n) [] = none
  print_vargs (suc n) (varg_int i ∷ ap) = print_vargs n ap >>= λ l. some (int_line i ∷ l)
  print_vargs (suc n) (varg_double d ∷ ap) = print_vargs n ap >>= λ l. some (double_line d ∷ l)
  print_vargs (suc n) (varg_str s ∷ ap) = print_vargs n ap >>= λ l. some (str_line s ∷ l)

-- The types that `TYPE_NAME` tells apart.
pub data CType : Type 0 where
  int long double float char_pointer const_char_pointer other : CType

unfoldable pub type_name : CType → Text
type_name int = bytes "int"
type_name long = bytes "long"
type_name double = bytes "double"
type_name float = bytes "float"
type_name char_pointer = bytes "char *"
type_name const_char_pointer = bytes "const char *"
type_name other = bytes "other"
