-- ===== src/Errors.antt =====
-- exercises/20_error_handling/error_handling.c: the parsers, the propagation of errors through calls,
-- the jumps of setjmp and longjmp, and the error codes.
pub mod Ranges
mod Sections
mod Tests
use c_programming.Prelude.{
  ℕ, zero, suc, ◌+◌, ◌-◌, ◌*◌, ◌/◌, ◌%◌, ◌^◌, Bool, true, false, Option, none, some, List, [], ◌∷◌,
  if◌then◌else◌, ltb, leb, ◌==◌, ◌&&◌, ◌||◌, not,
}
use c_programming.Prelude.Int.{ℤ, pos, negsuc, ltb_ℤ, ◌==ℤ◌}
use c_programming.Prelude.Texts.{Text, bytes, str_eq}

-- `-n`
abbrev pub negative : ℕ → ℤ
negative zero = pos 0
negative (suc n) = negsuc n

-- The characters that `strtol` skips and reads.
abbrev pub is_space : ℕ → Bool
is_space c = (c == 32) || (leb 9 c && leb c 13)

abbrev pub is_digit : ℕ → Bool
is_digit c = leb b'0' c && leb c b'9'

unfoldable pub skip_spaces : Text → Text
skip_spaces [] = []
skip_spaces (c ∷ cs) = let rest = skip_spaces cs in if is_space c then rest else c ∷ cs

unfoldable pub read_digits : ℕ → Text → ℕ × Text
read_digits acc [] = (acc, [])
read_digits acc (c ∷ cs) =
    let rest = read_digits (acc * 10 + (c - b'0')) cs in if is_digit c then rest else (acc, c ∷ cs)

-- What `strtol` answers: the value, the text at `end`, whether `end` has moved, and whether `errno`
-- is set.
pub record Scanned : Type 0 where
  pub val : ℤ
  pub end : Text
  pub moved : Bool
  pub errno : Bool

abbrev pub starts_with_digit : Text → Bool
starts_with_digit [] = false
starts_with_digit (c ∷ cs) = is_digit c

-- The digits after the sign, on 64 bits.
unfoldable pub scan_number : Bool → Text → Text → Scanned
scan_number minus s t =
    let (n, rest) = read_digits 0 t in
    if not (starts_with_digit t)
    then record { val = pos 0; end = s; moved = false; errno = false }
    else if minus
    then (if ltb (2 ^ 63) n
        then record { val = negative (2 ^ 63); end = rest; moved = true; errno = true }
        else record { val = negative n; end = rest; moved = true; errno = false })
    else (if ltb (2 ^ 63 - 1) n
        then record { val = pos (2 ^ 63 - 1); end = rest; moved = true; errno = true }
        else record { val = pos n; end = rest; moved = true; errno = false })

-- `strtol(s, &end, 10)`
unfoldable pub strtol : Text → Scanned
strtol s = elim (skip_spaces s) [
  | [] ↦ scan_number false s []
  | c ∷ cs ↦
      if c == b'-'
      then scan_number true s cs
      else if c == b'+'
      then scan_number false s cs
      else scan_number false s (c ∷ cs)
]

-- `(int)val`: 32 bits of the 64.
abbrev pub low_bits : ℤ → ℕ
low_bits (pos n) = n % 2 ^ 32
low_bits (negsuc n) = 2 ^ 32 - 1 - n % 2 ^ 32

unfoldable pub to_int : ℤ → ℤ
to_int v = let bits = low_bits v in if ltb bits (2 ^ 31) then pos bits else negative (2 ^ 32 - bits)

abbrev pub is_empty : Text → Bool
is_empty [] = true
is_empty (c ∷ cs) = false

-- `none` for the text is a null pointer; `none` is returned for -1.
unfoldable pub parse_int : Option Text → Option ℤ
parse_int none = none
parse_int (some s) =
    let r = strtol s in
    if is_empty s
    then none
    else if r.errno
    then none
    else if not (is_empty r.end)
    then none
    else some (to_int r.val)

pub data ErrCode : Type 0 where
  err_null_arg : ErrCode
  err_parse : ErrCode
  err_range : ErrCode
  err_alloc : ErrCode

-- `OK` with the value that is written out, or another code.
pub data Percent : Type 0 where
  ok : ℤ → Percent
  failed : ErrCode → Percent

-- `out` tells whether there is a place for the value.
unfoldable pub parse_percent : Option Text → Bool → Percent
parse_percent none out = failed err_null_arg
parse_percent (some s) out =
    let r = strtol s in
    if not out
    then failed err_null_arg
    else if r.errno || not r.moved
    then failed err_parse
    else if not (str_eq r.end (bytes "%"))
    then failed err_parse
    else if ltb_ℤ r.val (pos 0) || ltb_ℤ (pos 100) r.val
    then failed err_range
    else ok (to_int r.val)

unfoldable pub err_str : ErrCode → Text
err_str err_null_arg = bytes "null argument"
err_str err_parse = bytes "parse error"
err_str err_range = bytes "out of range"
err_str err_alloc = bytes "allocation failed"

-- `none` is -1.
unfoldable pub read_config_value : Text → Option ℤ
read_config_value key =
    if str_eq key (bytes "port")
    then some (pos 8080)
    else if str_eq key (bytes "timeout")
    then some (pos 30)
    else none

unfoldable pub load_config : Option (ℤ × ℤ)
load_config = elim (read_config_value (bytes "port")) [
  | none ↦ none
  | some port ↦ elim (read_config_value (bytes "timeout")) [
    | none ↦ none
    | some timeout ↦ some (port, timeout)
  ]
]

-- A call that ends, with the number that it prints, or jumps to the point that `setjmp` saved.
pub data Risk : Type 0 where
  printed : ℤ → Risk
  jumped : ℕ → Risk
  overflow : Risk

abbrev pub err_div_zero : ℕ
err_div_zero = 1

abbrev pub err_neg_sqrt : ℕ
err_neg_sqrt = 2

-- `a / b`, towards 0.
unfoldable pub quotient : ℤ → ℤ → ℤ
quotient (pos a) (pos b) = pos (a / b)
quotient (pos a) (negsuc b) = negative (a / (b + 1))
quotient (negsuc a) (pos b) = negative ((a + 1) / b)
quotient (negsuc a) (negsuc b) = pos ((a + 1) / (b + 1))

-- The least `int` over -1 is no `int`.
unfoldable pub risky_divide : ℤ → ℤ → Risk
risky_divide a b =
    if b ==ℤ pos 0
    then jumped err_div_zero
    else if (a ==ℤ negsuc 2147483647) && (b ==ℤ negsuc 0)
    then overflow
    else printed (quotient a b)

-- The loop, with the number of rounds left; `none` is a sum that is no `int`.
unfoldable pub newton : ℕ → ℕ → ℕ → Option ℕ
newton zero x r = some r
newton (suc left) x r =
    let rest = newton left x ((r + x / r) / 2) in if ltb 2147483647 (r + x / r) then none else rest

unfoldable pub risky_sqrt_approx : ℤ → Risk
risky_sqrt_approx (negsuc n) = jumped err_neg_sqrt
risky_sqrt_approx (pos x) =
    if x == 0
    then printed (pos 0)
    else elim (newton 20 x x) [ none ↦ overflow | some r ↦ printed (pos r) ]
