-- ===== src/Bits/Tests.antt =====
-- A run of `main` for its numbers, and the theorems at concrete values.
use c_programming.Prelude.{◌-◌, ◌≡◌, refl, true, false, [], ◌∷◌, map, arith}
use c_programming.Bits.{
  bit_test, lowest_set_bit, popcount, popcount_loop, reverse_bits, is_power_of_two,
  next_power_of_two, smear, print_bits8, print_bits, reverse_loop,
}
use c_programming.Bits.Bytes.{reverse_bits-reverse_bits}
use c_programming.Bits.Main.{xor_swap, tests, vals}

powers :
    map is_power_of_two tests
    ≡ false ∷ true ∷ true ∷ false ∷ true ∷ false ∷ true ∷ false ∷ true ∷ []
unfolding is_power_of_two
powers = refl

next_powers : map next_power_of_two vals ≡ 1 ∷ 1 ∷ 8 ∷ 16 ∷ 32 ∷ 128 ∷ 128 ∷ 1024 ∷ 0 ∷ []
unfolding next_power_of_two smear
next_powers = refl

tricks :
    (lowest_set_bit 180 ≡ 4)
    × (popcount 180 ≡ 4)
    × (reverse_bits 162 ≡ 69)
    × (print_bits8 182 ≡ 1 ∷ 0 ∷ 1 ∷ 1 ∷ 0 ∷ 1 ∷ 1 ∷ 0 ∷ [])
    × (xor_swap 42 99 ≡ (99, 42))
unfolding lowest_set_bit popcount popcount_loop reverse_bits reverse_loop print_bits8 print_bits
    xor_swap
tricks = (refl, refl, refl, refl, refl)

reverse_bits-reverse_bits_example :
    (bit_test (reverse_bits 162) 2 ≡ bit_test 162 (7 - 2)) × (reverse_bits (reverse_bits 162) ≡ 162)
reverse_bits-reverse_bits_example = reverse_bits-reverse_bits 162 2 (omega arith) (omega arith)
