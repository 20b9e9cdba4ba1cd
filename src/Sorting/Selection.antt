-- ===== src/Sorting/Selection.antt =====
-- `selection_sort`.
use c_programming.Prelude.{
  ℕ, zero, suc, ◌+◌, ◌-◌, ◌≤◌, ◌<◌, ◌≡◌, if◌then◌else◌, ◌==◌, not, arith, Bool-cases, inl, inr,
}
use c_programming.Prelude.Int.{◌≤ℤ◌, ltb_ℤ}
use c_programming.Sorting.{Array, write, swap_int, min_index, selection_loop, selection_sort}
use c_programming.Sorting.Arrays.{
  Rearranged, IsSorted, Rearranged-refl, Rearranged-trans, Rearranged-swap_int,
}

-- `m` is a place from `i` on with a least value among the places from `i` up to `n`.
record IsLeastPlace (a : Array) (i n m : ℕ) : Type 0 where
  from : i ≤ m
  below : m < n
  least : (q : ℕ) → i ≤ q → q < n → a m ≤ℤ a q

min_index-IsLeastPlace :
    (left j i n m : ℕ) (a : Array)
    → left + j ≡ n
    → IsLeastPlace a i j m
    → IsLeastPlace a i n (min_index left j m a)
unfolding min_index
min_index-IsLeastPlace zero j i n m a e l = record {
  from = l.from;
  below = omega (arith, l.below);
  least = λ q h k. l.least q h (omega arith);
}
min_index-IsLeastPlace (suc left) j i n m a e l = elim (Bool-cases (ltb_ℤ (a j) (a m))) [
  | inl less ↦ rw less (
      min_index-IsLeastPlace left (suc j) i n j a (omega arith) record {
        from = omega (arith, l.from, l.below);
        below = omega arith;
        least = λ q h k. ground (arith, l.least q h);
      })
  | inr more ↦ rw more (
      min_index-IsLeastPlace left (suc j) i n m a (omega arith) record {
        from = l.from;
        below = omega (arith, l.below);
        least = λ q h k. ground (arith, l.least q h);
      })
]

-- Each of the first `i` places is in order with all places after it.
abbrev Settled : Array → ℕ → ℕ → Type 0
Settled a i n = (p q : ℕ) → p < i → p < q → q < n → a p ≤ℤ a q

Settled-swap_int :
    (a : Array) (i n m : ℕ)
    → Settled a i n
    → IsLeastPlace a i n m
    → Settled (if not (m == i) then swap_int a i m else a) (suc i) n
unfolding swap_int write
Settled-swap_int a i n m s l p q h before last =
    ground (arith, s p q, s p i, s p m, l.least q, l.least i, l.from, l.below)

swapped :
    (a : Array) (i m n : ℕ)
    → i < n
    → m < n
    → Rearranged a (if not (m == i) then swap_int a i m else a) n
swapped a i m n hi hm = elim (Bool-cases (m == i)) [
  | inl same ↦ rw same (Rearranged-refl a n)
  | inr other ↦ rw other (Rearranged-swap_int a i m n hi hm)
]

selection_loop-IsSorted :
    (left i n : ℕ) (a : Array)
    → left + i + 1 ≡ n
    → Settled a i n
    → IsSorted (selection_loop left i a) n × Rearranged a (selection_loop left i a) n
unfolding selection_loop
selection_loop-IsSorted zero i n a e s =
    (λ p q before last. s p q (omega arith) before last, Rearranged-refl a n)
selection_loop-IsSorted (suc left) i n a e s =
    let m = min_index (suc left) (suc i) i a in
    let l =
      min_index-IsLeastPlace (suc left) (suc i) i n i a (omega arith)
        record { from = omega arith; below = omega arith; least = λ q h k. ground arith } in
    let (sorted, same) =
      selection_loop-IsSorted left (suc i) n (if not (m == i) then swap_int a i m else a)
        (omega arith) (Settled-swap_int a i n m s l) in
    (sorted, Rearranged-trans (swapped a i m n (omega arith) l.below) same)

-- `selection_sort` leaves the first `n` places of the array in ascending order, with the values that
-- stood there, each as often, and changes no other place.
pub selection_sort-IsSorted :
    (a : Array) (n : ℕ) → IsSorted (selection_sort a n) n × Rearranged a (selection_sort a n) n
unfolding selection_sort selection_loop
selection_sort-IsSorted a zero = ((λ p q before last. absurd (omega arith)), Rearranged-refl a 0)
selection_sort-IsSorted a (suc n) =
    let rounds : suc n - 1 ≡ n = omega arith in
    rw rounds (
      selection_loop-IsSorted n 0 (suc n) a (omega arith)
        (λ p q h before last. absurd (omega arith)))
