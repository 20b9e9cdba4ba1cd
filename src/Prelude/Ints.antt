-- ===== src/Prelude/Ints.antt =====
-- The `int` of C: arithmetic on integers, and the ends of its 32 bits. `none` is an overflow, which is
-- undefined in C.
use c_programming.Prelude.{
  ℕ, ◌+◌, ◌-◌, ◌*◌, ◌≡◌, refl, Bool, Option, none, some, arith, leb, ltb, if◌then◌else◌,
}
use c_programming.Prelude.Int.{ℤ, pos, negsuc, pos_part, neg_part}

-- `a - b` for numbers.
abbrev pub sub_ℕ : ℕ → ℕ → ℤ
sub_ℕ a b = if leb b a then pos (a - b) else negsuc (b - a - 1)

infixl 65 ◌+ℤ◌ ◌-ℤ◌
infixl 70 ◌*ℤ◌
unfoldable pub ◌+ℤ◌ : ℤ → ℤ → ℤ
m +ℤ n = sub_ℕ (pos_part m + pos_part n) (neg_part m + neg_part n)

unfoldable pub ◌-ℤ◌ : ℤ → ℤ → ℤ
m -ℤ n = sub_ℕ (pos_part m + neg_part n) (neg_part m + pos_part n)

unfoldable pub ◌*ℤ◌ : ℤ → ℤ → ℤ
(pos m) *ℤ (pos n) = pos (m * n)
(pos m) *ℤ (negsuc n) = sub_ℕ 0 (m * (n + 1))
(negsuc m) *ℤ (pos n) = sub_ℕ 0 ((m + 1) * n)
(negsuc m) *ℤ (negsuc n) = pos ((m + 1) * (n + 1))

abbrev pub int_end : ℕ
int_end = 2147483648

abbrev pub is_int : ℤ → Bool
is_int (pos n) = ltb n int_end
is_int (negsuc n) = ltb n int_end

unfoldable pub int : ℤ → Option ℤ
int v = if is_int v then some v else none

unfoldable pub add_int : ℤ → ℤ → Option ℤ
unfolding ◌+ℤ◌ int
add_int a b = int (a +ℤ b)

unfoldable pub sub_int : ℤ → ℤ → Option ℤ
unfolding ◌-ℤ◌ int
sub_int a b = int (a -ℤ b)

unfoldable pub mul_int : ℤ → ℤ → Option ℤ
unfolding ◌*ℤ◌ int
mul_int a b = int (a *ℤ b)

-- A chain of results, each of which may be undefined.
infixl 5 ◌>>=◌ ◌>>◌
abbrev pub ◌>>=◌ : {A B : Type 0} → Option A → (A → Option B) → Option B
none >>= f = none
some a >>= f = f a

abbrev pub ◌>>◌ : {A B : Type 0} → Option A → Option B → Option B
m >> k = m >>= λ _. k

-- The operations on numbers that fit.
pub add_int_pos :
    (a b : ℕ) → add_int (pos a) (pos b) ≡ (if ltb (a + b) int_end then some (pos (a + b)) else none)
unfolding add_int
add_int_pos a b = ground arith

pub mul_int_pos :
    (a b : ℕ) → mul_int (pos a) (pos b) ≡ (if ltb (a * b) int_end then some (pos (a * b)) else none)
unfolding mul_int
mul_int_pos a b = refl
