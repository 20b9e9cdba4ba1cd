-- ===== src/Bits/Bytes.antt =====
-- The operations on single bits, and the reversal, at every byte.
use c_programming.Prelude.{
  ℕ, ◌-◌, ◌<◌, ◌≡◌, refl, Bool, true, if◌then◌else◌, ◌==◌, ==_iff, ◌&&◌, arith,
}
use c_programming.Prelude.Ranges.{all_below, all_below_sound}
use c_programming.Bits.{bit_set, bit_clear, bit_toggle, bit_test, reverse_loop, reverse_bits}

-- Bit `m` after each operation on bit `n`.
abbrev passes : ℕ → ℕ → ℕ → Bool
passes x n m =
    (bit_test (bit_set x n) m == (if m == n then 1 else bit_test x m))
    && ((bit_test (bit_clear x n) m == (if m == n then 0 else bit_test x m))
        && (bit_test (bit_toggle x n) m == (if m == n then 1 - bit_test x m else bit_test x m)))

table : all_below 256 (λ x. all_below 8 (λ n. all_below 8 (λ m. passes x n m))) ≡ true
unfolding all_below bit_set bit_clear bit_toggle bit_test
table = refl

passed : (x n m : ℕ) → x < 256 → n < 8 → m < 8 → passes x n m ≡ true
passed x n m hx hn hm =
    all_below_sound 8 (λ m. passes x n m) m
      (all_below_sound 8 (λ n. all_below 8 (λ m. passes x n m)) n
        (all_below_sound 256 (λ x. all_below 8 (λ n. all_below 8 (λ m. passes x n m))) x table hx)
        hn)
      hm

-- On a byte, `bit_set` sets bit `n`, `bit_clear` clears it and `bit_toggle` turns it round, and none
-- of them changes another bit.
pub bit_test-bit_set :
    (x n m : ℕ)
    → x < 256
    → n < 8
    → m < 8
    → (bit_test (bit_set x n) m ≡ (if m == n then 1 else bit_test x m))
      × (bit_test (bit_clear x n) m ≡ (if m == n then 0 else bit_test x m))
      × (bit_test (bit_toggle x n) m ≡ (if m == n then 1 - bit_test x m else bit_test x m))
bit_test-bit_set x n m hx hn hm =
    let p = passed x n m hx hn hm in (ground arith, ground arith, ground arith)

reversed :
    all_below 256 (λ x. all_below 8 (λ i. bit_test (reverse_bits x) i == bit_test x (7 - i))) ≡ true
unfolding all_below reverse_bits reverse_loop bit_test
reversed = refl

twice : all_below 256 (λ x. reverse_bits (reverse_bits x) == x) ≡ true
unfolding all_below reverse_bits reverse_loop
twice = refl

-- `reverse_bits` puts bit `7 - i` of a byte at place `i`, and done twice gives the byte back.
pub reverse_bits-reverse_bits :
    (x i : ℕ)
    → x < 256
    → i < 8
    → (bit_test (reverse_bits x) i ≡ bit_test x (7 - i)) × (reverse_bits (reverse_bits x) ≡ x)
reverse_bits-reverse_bits x i hx hi = (
  (==_iff _ (bit_test x (7 - i))).0 (
      all_below_sound 8 (λ i. bit_test (reverse_bits x) i == bit_test x (7 - i)) i
        (all_below_sound 256
          (λ x. all_below 8 (λ i. bit_test (reverse_bits x) i == bit_test x (7 - i))) x reversed hx)
        hi),
  (==_iff _ x).0 (all_below_sound 256 (λ x. reverse_bits (reverse_bits x) == x) x twice hx),
)
