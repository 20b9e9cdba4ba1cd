-- ===== src/Sorting/Quick/Order.antt =====
-- `quick_sort`.
use c_programming.Prelude.{
  ℕ, zero, suc, ◌+◌, ◌-◌, ◌≤◌, ◌<◌, ◌≡◌, refl, true, some, leb, ltb, arith, Bool-cases, inl, inr,
  ◌∙◌, ◌==◌, subst,
}
use c_programming.Prelude.Int.{◌≤ℤ◌, ◌==ℤ◌, leb_ℤ, eq_of_==ℤ, ==ℤ_refl}
use c_programming.Sorting.{Array}
use c_programming.Sorting.Arrays.{Rearranged, IsSorted, Rearranged-refl}
use c_programming.Sorting.Quick.{quick_sort_rec, quick_sort}
use c_programming.Sorting.Quick.Moved.{Moved, Moved-refl, Moved-trans, Moved-within}
use c_programming.Sorting.Quick.Split.{IsSplit, partition-IsSplit}

-- `b` is a rearrangement of the places of `a` from `lo` to `hi` that puts them in order.
record Ordered (a b : Array) (lo hi : ℕ) : Type 0 where
  run : (p q : ℕ) → lo ≤ p → p < q → q ≤ hi → b p ≤ℤ b q
  moved : Moved lo hi a b

short_Ordered : (a : Array) (lo hi : ℕ) → hi ≤ lo → Ordered a a lo hi
short_Ordered a lo hi h = record {
  run = λ p q f b e. absurd (omega arith);
  moved = Moved-refl lo hi a;
}

module _ (a b c d : Array) (lo hi p : ℕ) (s : IsSplit a lo hi p b) where
  module _ (left : Ordered b c lo (p - 1)) (right : Ordered c d (p + 1) hi) where
    -- What lies before the place of the split, and what lies there and after it, at the end.
    before : (q : ℕ) → lo ≤ q → q < p → d q ≤ℤ b p
    before q f l =
        let capped =
          left.moved.all (λ v. leb_ℤ v (b p))
            (λ k g e. let at = s.low k g (omega arith) in ground arith) q f (omega arith) in
        ground (arith, capped, right.moved.under q)

    -- Where the place is 0 the left call gets the place itself, a part of one.
    kept : c p ≡ b p
    kept = elim (Bool-cases (p == 0)) [
      | inl first ↦
          let same =
            left.moved.all (λ v. v ==ℤ b p)
              (λ k g e. let at : k ≡ p = ground arith in rw at (==ℤ_refl (b p))) p s.from
              (ground arith) in
          eq_of_==ℤ (c p) (b p) same
      | inr later ↦ left.moved.same.outside p (ground arith)
    ]

    there : d p ≡ b p
    there = right.moved.under p (omega arith) ∙ kept

    beyond : (q : ℕ) → p < q → q ≤ hi → b p ≤ℤ d q
    beyond q f l =
        let floored : leb_ℤ (b p) (d q) ≡ true =
          right.moved.all (λ v. leb_ℤ (b p) v)
            (λ k g e.
              let at = s.high k (omega arith) e in
              let same = left.moved.same.outside k (omega arith) in ground (arith, at, same))
            q (omega arith) l in
        ground (arith, floored)

    joined : Ordered a d lo hi
    joined = record {
      run = λ i j f o e. ground (
        arith,
        left.run i j f o,
        right.run i j,
        right.moved.under i,
        right.moved.under j,
        before i f,
        beyond j,
        there,
      );
      moved = Moved-trans s.moved (
          Moved-trans
            (Moved-within lo hi lo (p - 1) b c (omega arith) (omega (arith, s.end)) left.moved)
            (Moved-within lo hi (p + 1) hi c d (omega (arith, s.from)) (omega arith) right.moved));
    }

quick_sort_rec-Ordered :
    (fuel n lo hi : ℕ) (a : Array)
    → 0 < fuel
    → hi < lo + fuel
    → hi < n
    → (b : Array) × (quick_sort_rec fuel n lo hi a ≡ some b) × Ordered a b lo hi
unfolding quick_sort_rec
quick_sort_rec-Ordered zero n lo hi a some_fuel enough l = absurd (omega arith)
quick_sort_rec-Ordered (suc fuel) n lo hi a some_fuel enough l = elim (Bool-cases (leb hi lo)) [
  | inl short ↦ (a, rw (short, quick_sort_rec) refl, short_Ordered a lo hi (ground arith))
  | inr long ↦
      let wide : lo < hi = ground arith in
      let (p, b, split, s) = partition-IsSplit n a lo hi wide l in
      let (c, run₁, left) =
        quick_sort_rec-Ordered fuel n lo (p - 1) b (omega arith) (omega (arith, s.from, s.end))
          (omega (arith, s.end)) in
      let (d, run₂, right) =
        quick_sort_rec-Ordered fuel n (p + 1) hi c (omega arith) (omega (arith, s.from)) l in
      (d, rw (long, split, run₁, quick_sort_rec) run₂, joined a b c d lo hi p s left right)
]

-- `quick_sort` ends, reads no place outside the array, and leaves its `n` places in ascending order,
-- with the values that stood there, each as often; it changes no other place.
pub quick_sort-IsSorted :
    (a : Array) (n : ℕ) → (b : Array) × (quick_sort a n ≡ some b) × IsSorted b n × Rearranged a b n
unfolding quick_sort
quick_sort-IsSorted a n = elim (Bool-cases (ltb n 2)) [
  | inl few ↦ (a, rw few refl, (λ p q b e. absurd (ground arith)), Rearranged-refl a n)
  | inr many ↦
      let two : 1 < n = ground arith in
      let (b, run, o) =
        quick_sort_rec-Ordered n n 0 (n - 1) a (omega arith) (omega arith) (omega arith) in
      let last : suc (n - 1) ≡ n = omega arith in
      (
        b,
        rw many run,
        (λ p q f e. o.run p q (omega arith) f (omega arith)),
        subst (λ m. Rearranged a b m) last o.moved.same,
      )
]
