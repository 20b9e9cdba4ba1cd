-- ===== src/Bits/Main.antt =====
-- `main` of exercises/13_bit_manipulation/bits.c, up to its structs of bit-fields, and its packed
-- colour and swap.
use Prim.Native.Nat.{bit_and, bit_or, bit_xor}
use c_programming.Prelude.{ℕ, ◌%◌, Bool, List, [], ◌∷◌, map}
use c_programming.Bits.{
  uint8, bit_not, shift_left, shift_right, print_bits8, print_bits32, bit_set, bit_clear,
  bit_toggle, bit_test, lowest_set_bit, popcount, reverse_bits, is_power_of_two, next_power_of_two,
  rgb565_pack, rgb565_r, rgb565_g, rgb565_b,
}

-- What is printed, without the titles: digits, a number, or a yes or no.
pub data Line : Type 0 where
  byte : ℕ → List ℕ → Line
  digits : List ℕ → Line
  number : ℕ → Line
  answer : Bool → Line

abbrev shown : ℕ → Line
shown v = byte v (print_bits8 v)

abbrev pub tests : List ℕ
tests = 0 ∷ 1 ∷ 2 ∷ 3 ∷ 4 ∷ 15 ∷ 16 ∷ 255 ∷ 256 ∷ []

abbrev pub vals : List ℕ
vals = 0 ∷ 1 ∷ 5 ∷ 9 ∷ 17 ∷ 100 ∷ 128 ∷ 1000 ∷ 2147483649 ∷ []

-- `p ^= q; q ^= p; p ^= q;` on two different variables that are not negative.
unfoldable pub xor_swap : ℕ → ℕ → ℕ × ℕ
xor_swap p q = let p₁ = bit_xor p q in let q₁ = bit_xor q p₁ in (bit_xor p₁ q₁, q₁)

unfoldable pub main : List (List Line)
main =
    let a : ℕ = 182 in
    let b : ℕ = 109 in
    let flags₁ = bit_set 0 0 in
    let flags₂ = bit_set flags₁ 3 in
    let flags₃ = bit_set flags₂ 7 in
    let flags₄ = bit_clear flags₃ 3 in
    let flags₅ = bit_toggle flags₄ 0 in
    let packed = rgb565_pack 31 20 10 in
    let (p, q) = xor_swap 42 99 in
    (shown a
      ∷ shown b
      ∷ shown (bit_and a b)
      ∷ shown (bit_or a b)
      ∷ shown (bit_xor a b)
      ∷ shown (bit_not a % uint8)
      ∷ [])
    ∷ (shown 1
        ∷ shown (shift_left 1 3)
        ∷ shown (shift_left 1 7)
        ∷ shown 128
        ∷ shown (shift_right 128 1)
        ∷ shown (shift_right 128 4)
        ∷ [])
    ∷ (shown 0
        ∷ shown flags₁
        ∷ shown flags₂
        ∷ shown flags₃
        ∷ shown flags₄
        ∷ shown flags₅
        ∷ number (bit_test flags₅ 7)
        ∷ number (bit_test flags₅ 0)
        ∷ [])
    ∷ (digits (print_bits32 180)
        ∷ digits (print_bits32 (lowest_set_bit 180))
        ∷ number (popcount 180)
        ∷ number (reverse_bits 162)
        ∷ [])
    ∷ map (λ v. answer (is_power_of_two v)) tests
    ∷ map (λ v. number (next_power_of_two v)) vals
    ∷ (number packed
        ∷ digits (print_bits32 packed)
        ∷ number (rgb565_r packed)
        ∷ number (rgb565_g packed)
        ∷ number (rgb565_b packed)
        ∷ [])
    ∷ (number p ∷ number q ∷ [])
    ∷ []
