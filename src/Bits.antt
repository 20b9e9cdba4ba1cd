-- ===== src/Bits.antt =====
-- exercises/13_bit_manipulation/bits.c. A value of `w` bits is a number below 2 ^ w; a conversion to
-- a narrower type is a remainder.
pub mod Bytes
pub mod Colours
mod Main
mod Tests
use Prim.Native.Nat.{bit_and, bit_or, bit_xor}
use c_programming.Prelude.{
  ℕ, zero, suc, ◌+◌, ◌-◌, ◌*◌, ◌/◌, ◌%◌, ◌^◌, Bool, true, false, List, [], ◌∷◌, if◌then◌else◌, ltb,
  ◌==◌, ◌&&◌, not,
}

abbrev pub uint32 : ℕ
uint32 = 2 ^ 32

abbrev pub uint8 : ℕ
uint8 = 2 ^ 8

-- `x >> n`, and `x << n` on 32 bits.
abbrev pub shift_right : ℕ → ℕ → ℕ
shift_right x n = x / 2 ^ n

abbrev pub shift_left : ℕ → ℕ → ℕ
shift_left x n = x * 2 ^ n % uint32

-- `~x` on 32 bits.
abbrev pub bit_not : ℕ → ℕ
bit_not x = uint32 - 1 - x

-- The digits that are printed, with the number of rounds left.
unfoldable pub print_bits : ℕ → ℕ → List ℕ
print_bits zero v = []
print_bits (suc i) v = bit_and (shift_right v i) 1 ∷ print_bits i v

unfoldable pub print_bits8 : ℕ → List ℕ
unfolding print_bits
print_bits8 v = print_bits 8 v

-- Without the separators between the bytes.
unfoldable pub print_bits32 : ℕ → List ℕ
unfolding print_bits
print_bits32 v = print_bits 32 v

unfoldable pub bit_set : ℕ → ℕ → ℕ
bit_set x n = bit_or x (shift_left 1 n) % uint8

unfoldable pub bit_clear : ℕ → ℕ → ℕ
bit_clear x n = bit_and x (bit_not (shift_left 1 n)) % uint8

unfoldable pub bit_toggle : ℕ → ℕ → ℕ
bit_toggle x n = bit_xor x (shift_left 1 n) % uint8

unfoldable pub bit_test : ℕ → ℕ → ℕ
bit_test x n = bit_and (shift_right x n) 1

-- `-x` on 32 bits is `2 ^ 32 - x`, or 0.
unfoldable pub lowest_set_bit : ℕ → ℕ
lowest_set_bit x = bit_and x ((uint32 - x) % uint32)

-- Each round clears a bit, and there are 32.
unfoldable pub popcount_loop : ℕ → ℕ → ℕ → ℕ
popcount_loop zero x count = count
popcount_loop (suc fuel) x count =
    let rest = popcount_loop fuel (bit_and x (x - 1)) (count + 1) in if x == 0 then count else rest

unfoldable pub popcount : ℕ → ℕ
popcount x = popcount_loop 33 x 0

-- The loop of `reverse_bits`, with the number of rounds left.
unfoldable pub reverse_loop : ℕ → ℕ → ℕ → ℕ
reverse_loop zero x r = r
reverse_loop (suc left) x r =
    reverse_loop left (shift_right x 1) (bit_or (shift_left r 1) (bit_and x 1) % uint8)

unfoldable pub reverse_bits : ℕ → ℕ
reverse_bits x = reverse_loop 8 x 0

unfoldable pub is_power_of_two : ℕ → Bool
is_power_of_two x = not (x == 0) && (bit_and x (x - 1) == 0)

-- The five lines that copy the highest bit downwards.
unfoldable pub smear : ℕ → ℕ
smear x =
    let a = bit_or x (shift_right x 1) in
    let b = bit_or a (shift_right a 2) in
    let c = bit_or b (shift_right b 4) in
    let d = bit_or c (shift_right c 8) in bit_or d (shift_right d 16)

unfoldable pub next_power_of_two : ℕ → ℕ
next_power_of_two x =
    if x == 0 then 1 else if ltb 2147483648 x then 0 else (smear (x - 1) + 1) % uint32

unfoldable pub rgb565_pack : ℕ → ℕ → ℕ → ℕ
rgb565_pack r g b =
    bit_or (bit_or (shift_left (bit_and r 31) 11) (shift_left (bit_and g 63) 5)) (bit_and b 31)
    % 2 ^ 16

unfoldable pub rgb565_r : ℕ → ℕ
rgb565_r c = bit_and (shift_right c 11) 31

unfoldable pub rgb565_g : ℕ → ℕ
rgb565_g c = bit_and (shift_right c 5) 63

unfoldable pub rgb565_b : ℕ → ℕ
rgb565_b c = bit_and c 31
