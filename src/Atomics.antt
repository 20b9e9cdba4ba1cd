-- ===== src/Atomics.antt =====
-- exercises/29_atomics/atomics.c: each call of <stdatomic.h> is one step. The memory order is the
-- sequentially consistent one throughout: each object is touched by atomic operations alone, or under
-- the lock of the exercise.
pub mod Counter
pub mod Maximum
pub mod Spin
pub mod Treiber
mod Tests
use c_programming.Prelude.{
  ℕ, zero, suc, ◌+◌, ◌-◌, ◌*◌, ◌%◌, ◌^◌, ◌≡◌, refl, Bool, true, false, List, [], ◌∷◌, if◌then◌else◌,
  ◌==◌,
}
use Prim.Native.Nat.{bit_and, bit_or}

-- An object as its bit pattern: the arithmetic of atomic objects wraps at its size, which is passed.
abbrev pub u32 : ℕ
u32 = 4294967296

abbrev pub u64 : ℕ
u64 = 18446744073709551616

-- Each returns the new value of the object and the old one.
unfoldable pub fetch_add : ℕ → ℕ → ℕ → ℕ × ℕ
fetch_add size v n = ((v + n) % size, v)

unfoldable pub fetch_sub : ℕ → ℕ → ℕ → ℕ × ℕ
fetch_sub size v n = ((v + size - n) % size, v)

unfoldable pub fetch_or : ℕ → ℕ → ℕ × ℕ
fetch_or v n = (bit_or v n, v)

unfoldable pub fetch_and : ℕ → ℕ → ℕ × ℕ
fetch_and v n = (bit_and v n, v)

-- What is printed in `section1_types`: the values loaded and the old values, in their order.
section1_types : List ℕ
unfolding fetch_add fetch_sub fetch_or fetch_and
section1_types =
    let ai : ℕ = 42 in
    let (ai', old) = fetch_add u32 ai 10 in
    let (ai'', old') = fetch_sub u32 ai' 5 in
    let (al, _) = fetch_or 0x0F 0xF0 in
    let (al', _) = fetch_and al 0x33 in
    let flag : ℕ = 1 in ai ∷ old ∷ ai' ∷ old' ∷ ai'' ∷ al ∷ al' ∷ flag ∷ []

section1_printed : section1_types ≡ 42 ∷ 42 ∷ 52 ∷ 52 ∷ 47 ∷ 0xFF ∷ 0x33 ∷ 1 ∷ []
unfolding section1_types
section1_printed = refl

-- A compare-exchange: the new value of the object, that of `expected`, and whether it succeeds.
pub record Exchange {ℓ} (A : Type ℓ) : Type ℓ where
  pub object : A
  pub expected : A
  pub done : Bool

unfoldable pub compare_exchange : ℕ → ℕ → ℕ → Exchange ℕ
compare_exchange object expected desired =
    if object == expected
    then record { object = desired; expected = expected; done = true }
    else record { object = object; expected = object; done = false }

-- `section3_cas` up to the loop: success and new value, then success and the value expected.
section3_cas : Bool × ℕ × Bool × ℕ
unfolding compare_exchange
section3_cas =
    let first = compare_exchange 100 100 200 in
    let second = compare_exchange first.object 100 300 in
    (first.done, first.object, second.done, second.expected)

section3_printed : section3_cas ≡ (true, 200, false, 200)
unfolding section3_cas
section3_printed = refl
