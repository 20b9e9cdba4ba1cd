-- ===== src/Errors/Ranges.antt =====
-- The square root and the percentages, at every value of a range.
use c_programming.Prelude.{
  ℕ, suc, ◌+◌, ◌-◌, ◌*◌, ◌/◌, ◌%◌, ◌≤◌, ◌<◌, ◌≡◌, refl, Bool, true, false, none, some, [], ◌∷◌,
  ◌++◌, if◌then◌else◌, ltb, leb, ◌==◌, ◌&&◌, arith, Option-cases, inl, inr,
}
use c_programming.Prelude.Int.{pos, ◌==ℤ◌, eq_of_==ℤ}
use c_programming.Prelude.Texts.{Text, bytes, str_eq}
use c_programming.Prelude.Ranges.{all_below, all_below_sound}
use c_programming.Errors.{
  skip_spaces, read_digits, scan_number, strtol, to_int, Percent, ErrCode, parse_percent, newton,
  Risk, risky_sqrt_approx,
}

-- The number is the root, rounded down, or one more.
abbrev is_near : ℕ → ℕ → Bool
is_near x r = leb ((r - 1) * (r - 1)) x && ltb x ((r + 1) * (r + 1))

near : ℕ → Bool
near x = elim (newton 20 (suc x) (suc x)) [ none ↦ false | some r ↦ is_near (suc x) r ]

roots : all_below 5000 near ≡ true
unfolding all_below near newton
roots = refl

newton-near :
    (x : ℕ)
    → near x ≡ true
    → (r : ℕ) × (newton 20 (suc x) (suc x) ≡ some r) × (is_near (suc x) r ≡ true)
unfolding near
newton-near x e = elim (Option-cases (newton 20 (suc x) (suc x))) [
  | inl absent ↦ absurd (ground (arith, absent))
  | inr (r, there) ↦ (r, there, ground (arith, there))
]

-- For a positive number up to 5000, `risky_sqrt_approx` prints its root rounded down, or one more.
pub risky_sqrt_approx-near :
    (x : ℕ)
    → x < 5000
    → (r : ℕ) × (risky_sqrt_approx (pos (suc x)) ≡ Risk.printed (pos r))
      × ((r - 1) * (r - 1) ≤ suc x)
      × (suc x < (r + 1) * (r + 1))
unfolding risky_sqrt_approx
risky_sqrt_approx-near x h =
    let (r, run, close) = newton-near x (all_below_sound 5000 near x roots h) in
    let positive : (suc x == 0) ≡ false = ground arith in
    (r, rw (positive, run) refl, ground arith, ground arith)

-- `n` with three, two or one digits, and a percent sign.
pub percentage : ℕ → Text
percentage n =
    (if leb 100 n then (48 + n / 100) ∷ [] else [])
    ++ ((if leb 10 n then (48 + n / 10 % 10) ∷ [] else []) ++ (48 + n % 10) ∷ bytes "%")

graded : ℕ → Percent → Bool
graded n (Percent.ok v) = leb n 100 && (v ==ℤ pos n)
graded n (Percent.failed ErrCode.err_range) = ltb 100 n
graded n (Percent.failed ErrCode.err_null_arg) = false
graded n (Percent.failed ErrCode.err_parse) = false
graded n (Percent.failed ErrCode.err_alloc) = false

reads : ℕ → Bool
reads n = graded n (parse_percent (some (percentage n)) true)

percentages : all_below 1000 reads ≡ true
unfolding all_below reads graded parse_percent percentage strtol skip_spaces scan_number read_digits
    to_int str_eq
percentages = refl

answer_of :
    (n : ℕ) (p : Percent)
    → graded n p ≡ true
    → p ≡ (if leb n 100 then Percent.ok (pos n) else Percent.failed ErrCode.err_range)
unfolding graded
answer_of n (Percent.ok v) e =
    let small : leb n 100 ≡ true = ground arith in
    let same : v ≡ pos n = eq_of_==ℤ v (pos n) (ground arith) in rw (small, same) refl
answer_of n (Percent.failed ErrCode.err_range) e =
    let large : leb n 100 ≡ false = ground arith in rw large refl
answer_of n (Percent.failed ErrCode.err_null_arg) e = absurd (ground arith)
answer_of n (Percent.failed ErrCode.err_parse) e = absurd (ground arith)
answer_of n (Percent.failed ErrCode.err_alloc) e = absurd (ground arith)

-- Of the numbers of up to three digits with a percent sign, `parse_percent` reads exactly those up to
-- 100, and answers that the others are out of range.
pub parse_percent-percentage :
    (n : ℕ)
    → n < 1000
    → parse_percent (some (percentage n)) true
      ≡ (if leb n 100 then Percent.ok (pos n) else Percent.failed ErrCode.err_range)
parse_percent-percentage n h =
    answer_of n (parse_percent (some (percentage n)) true)
      (unfold reads in all_below_sound 1000 reads n percentages h)
