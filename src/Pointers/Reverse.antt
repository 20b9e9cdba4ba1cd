-- ===== src/Pointers/Reverse.antt =====
-- `reverse` of exercises/06_pointers/pointers.c turns the text round in place.
use c_programming.Prelude.{
  ℕ, zero, suc, ◌+◌, ◌-◌, ◌≤◌, ◌<◌, ◌≡◌, refl, sym, ◌∙◌, true, false, some, if◌then◌else◌, ltb, leb,
  ◌&&◌, arith, Bool-cases, inl, inr,
}
use c_programming.Pointers.{Chars, exchange, reverse_loop, reverse}

-- The character of the result at `i`: mirrored from `left` to `right`, elsewhere the same.
abbrev pub mirrored : Chars → ℕ → ℕ → ℕ → ℕ
mirrored s left right i = if leb left i && leb i right then s (left + right - i) else s i

mirrored_step :
    (s : Chars) (left right i : ℕ)
    → left < right
    → mirrored (exchange s left right) (left + 1) (right - 1) i ≡ mirrored s left right i
unfolding exchange
mirrored_step s left right i h =
    let e : left + 1 + (right - 1) ≡ left + right = omega arith in rw e (ground arith)

mirrored_end : (s : Chars) (left right i : ℕ) → right ≤ left → mirrored s left right i ≡ s i
mirrored_end s left right i h = elim (Bool-cases (leb left i && leb i right)) [
  | inl within ↦ let e : left + right - i ≡ i = ground arith in rw (within, e) refl
  | inr outside ↦ rw outside refl
]

-- `right - left` rounds are enough; each brings the ends two places nearer.
reverse_loop-mirrored :
    (rounds : ℕ) (s : Chars) (left right : ℕ)
    → right ≤ left + rounds
    → (t : Chars) × (reverse_loop rounds s left right ≡ some t)
      × ((i : ℕ) → t i ≡ mirrored s left right i)
unfolding reverse_loop
reverse_loop-mirrored zero s left right h =
    let stops : ltb left right ≡ false = ground arith in
    rw stops (s, refl, λ i. sym (mirrored_end s left right i (omega arith)))
reverse_loop-mirrored (suc rounds) s left right h = elim (Bool-cases (ltb left right)) [
  | inl on ↦
      let (t, run, same) =
        reverse_loop-mirrored rounds (exchange s left right) (left + 1) (right - 1)
          (ground arith) in
      rw on (t, run, λ i. same i ∙ mirrored_step s left right i (ground arith))
  | inr over ↦ rw over (s, refl, λ i. sym (mirrored_end s left right i (ground arith)))
]

from_zero :
    (s : Chars) (len i : ℕ)
    → mirrored s 0 (len - 1) i ≡ (if ltb i len then s (len - 1 - i) else s i)
from_zero s len i = elim (Bool-cases (ltb i len)) [
  | inl within ↦
      let both : leb 0 i && leb i (len - 1) ≡ true = ground arith in
      let e : 0 + (len - 1) - i ≡ len - 1 - i = omega arith in rw (within, both, e) refl
  | inr outside ↦ rw outside (last i (ground arith))
]
  where
    last : (i : ℕ) → len ≤ i → mirrored s 0 (len - 1) i ≡ s i
    last i h = elim (Bool-cases (leb 0 i && leb i (len - 1))) [
      | inl within ↦ let e : 0 + (len - 1) - i ≡ i = ground arith in rw (within, e) refl
      | inr beyond ↦ rw beyond refl
    ]

-- reverse ends, and leaves at each of the `len` places the character at the mirrored place; it changes
-- nothing after them.
pub reverse_places :
    (s : Chars) (len : ℕ)
    → (t : Chars) × (reverse s len ≡ some t)
      × ((i : ℕ) → t i ≡ (if ltb i len then s (len - 1 - i) else s i))
unfolding reverse
reverse_places s len =
    let (t, run, same) = reverse_loop-mirrored len s 0 (len - 1) (omega arith) in
    (t, run, λ i. same i ∙ from_zero s len i)
