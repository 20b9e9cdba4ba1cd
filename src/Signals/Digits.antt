-- ===== src/Signals/Digits.antt =====
-- `write_int` of exercises/23_signals/signals.c writes its number in decimal.
use c_programming.Prelude.{ℕ, zero, suc, ◌+◌, ◌-◌, ◌*◌, ◌≤◌, Bool, ◌<◌, ◌≡◌, false, [], ◌∷◌, ◌==◌}
use c_programming.Prelude.Texts.{Text}

-- The number that decimal digits stand for, after the number `v`.
abbrev pub value : Text → ℕ → ℕ
value [] v = v
value (c ∷ cs) v = value cs (10 * v + (c - b'0'))

-- 10 ^ r
abbrev limit : ℕ → ℕ
limit zero = 1
limit (suc r) = 10 * limit r

-- Characters from '0' to '9'.
abbrev pub AreDigits : Text → Type 0
AreDigits [] = Unit {0}
AreDigits (c ∷ cs) = (b'0' ≤ c) × (c ≤ b'9') × AreDigits cs

-- Whether the first of several digits is a zero.
abbrev pub padded : Text → Bool
padded [] = false
padded (c ∷ []) = false
padded (c ∷ d ∷ cs) = c == b'0'

-- The text is the decimal numeral of `n`: its characters are digits, without leading zeros, and stand
-- for `n`.
pub record IsDecimal (t : Text) (n : ℕ) : Type 0 where
  pub digits : AreDigits t
  pub unpadded : padded t ≡ false
  pub stands_for : value t 0 ≡ n

-- What the loop leaves before the characters `buf`.
record Written (n : ℕ) (buf t : Text) : Type 0 where
  digits : AreDigits t
  leading : 0 < n → padded t ≡ false
  only_zero : n ≡ 0 → t ≡ b'0' ∷ buf
  stands_for : value t 0 ≡ value buf n
