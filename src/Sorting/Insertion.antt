-- ===== src/Sorting/Insertion.antt =====
-- `insertion_sort`.
use c_programming.Prelude.{ℕ, zero, suc, ◌+◌, ◌-◌, ◌<◌, ◌≡◌, ◌≢◌, arith, Bool-cases, inl, inr, ◌∙◌}
use c_programming.Prelude.Int.{ℤ, ◌≤ℤ◌, ltb_ℤ}
use c_programming.Sorting.{Array, write, shift, insertion_loop, insertion_sort}
use c_programming.Sorting.Arrays.{
  one_if, occurrences, Rearranged, IsSorted, Rearranged-refl, occurrences-write,
}

-- In order but for the place `j`, after which no value is below `key`.
record HasHole (a : Array) (key : ℤ) (j n : ℕ) : Type 0 where
  order : (p q : ℕ) → p < q → q < n → p ≢ j → q ≢ j → a p ≤ℤ a q
  above : (q : ℕ) → j < q → q < n → key ≤ℤ a q

shift-IsSorted :
    (key : ℤ) (j n : ℕ) (a : Array) → HasHole a key j n → j < n → IsSorted (shift key j a) n
unfolding shift write
shift-IsSorted key zero n a h lt =
    λ p q before last. ground (arith, h.order p q before last, h.above q)
shift-IsSorted key (suc j) n a h lt = elim (Bool-cases (ltb_ℤ key (a j))) [
  | inl less ↦ rw less (
      shift-IsSorted key j n (write a (suc j) (a j))
        record {
          order = λ p q before last f g.
              ground (arith, h.order p q before last, h.order p j, h.order j q);
          above = λ q after last. ground (arith, h.above q);
        }
        (omega arith))
  | inr more ↦
      rw more (λ p q before last. ground (arith, h.order p q before last, h.order p j, h.above q))
]

occurrences-shift :
    (v key : ℤ) (j n : ℕ) (a : Array)
    → j < n
    → occurrences v (shift key j a) n + one_if v (a j) ≡ occurrences v a n + one_if v key
unfolding shift write
occurrences-shift v key zero n a lt = occurrences-write v a 0 key n lt
occurrences-shift v key (suc j) n a lt = elim (Bool-cases (ltb_ℤ key (a j))) [
  | inl less ↦ rw less (
      ground (
        arith,
        occurrences-shift v key j n (write a (suc j) (a j)),
        occurrences-write v a (suc j) (a j) n lt,
      ))
  | inr more ↦ rw more (occurrences-write v a (suc j) key n lt)
]

shift_outside : (key : ℤ) (j : ℕ) (a : Array) (i : ℕ) → j < i → shift key j a i ≡ a i
unfolding shift write
shift_outside key zero a i lt = ground arith
shift_outside key (suc j) a i lt = ground (arith, shift_outside key j (write a (suc j) (a j)) i)

insertion_loop-IsSorted :
    (left i n : ℕ) (a : Array)
    → left + i ≡ n
    → IsSorted a i
    → IsSorted (insertion_loop left i a) n × Rearranged a (insertion_loop left i a) n
unfolding insertion_loop
insertion_loop-IsSorted zero i n a e s =
    (λ p q before last. s p q before (omega arith), Rearranged-refl a n)
insertion_loop-IsSorted (suc left) i n a e s =
    let a' = shift (a i) i a in
    let (sorted, same) = insertion_loop-IsSorted left (suc i) n a' (omega arith) (
      shift-IsSorted (a i) i (suc i) a
        record {
          order = λ p q before last f g. s p q before (omega arith);
          above = λ q after last. absurd (omega arith);
        }
        (omega arith)) in
    (
      sorted,
      record {
        counts = λ v. omega (arith, same.counts v, occurrences-shift v (a i) i n a (omega arith));
        outside = λ k h. same.outside k h ∙ shift_outside (a i) i a k (omega arith);
      },
    )

-- `insertion_sort` leaves the first `n` places of the array in ascending order, with the values that
-- stood there, each as often, and changes no other place.
pub insertion_sort-IsSorted :
    (a : Array) (n : ℕ) → IsSorted (insertion_sort a n) n × Rearranged a (insertion_sort a n) n
unfolding insertion_sort insertion_loop
insertion_sort-IsSorted a zero = ((λ p q before last. absurd (omega arith)), Rearranged-refl a 0)
insertion_sort-IsSorted a (suc n) =
    let rounds : suc n - 1 ≡ n = omega arith in
    rw rounds (
      insertion_loop-IsSorted n 1 (suc n) a (omega arith) (λ p q before last. absurd (omega arith)))
