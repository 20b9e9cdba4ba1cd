-- ===== src/Sorting/Quick/Scan.antt =====
-- The two scans of `partition`, and the loop around them.
use c_programming.Prelude.{
  ℕ, zero, suc, ◌+◌, ◌≤◌, ◌<◌, ◌≡◌, refl, false, some, leb, arith, Bool-cases, inl, inr,
}
use c_programming.Prelude.Int.{ℤ, ◌≤ℤ◌, ltb_ℤ}
use c_programming.Sorting.{Array, write, swap_int}
use c_programming.Sorting.Quick.{scan_up, scan_down, partition_loop}
use c_programming.Sorting.Quick.Moved.{Moved, Moved-refl, Moved-trans, Moved-swap_int}

-- The first place after `i` whose value is not below the pivot; `e` is such a place.
record Up (pivot : ℤ) (i e i' : ℕ) (a : Array) : Type 0 where
  after : i < i'
  pub end : i' ≤ e
  here : pivot ≤ℤ a i'
  passed : (q : ℕ) → i < q → q < i' → a q ≤ℤ pivot

scan_up-Up :
    (fuel n : ℕ) (pivot : ℤ) (i e : ℕ) (a : Array)
    → i < e
    → e < n
    → e ≤ i + fuel
    → pivot ≤ℤ a e
    → (i' : ℕ) × (scan_up fuel n pivot i a ≡ some i') × Up pivot i e i' a
unfolding scan_up
scan_up-Up zero n pivot i e a h l f g = absurd (omega arith)
scan_up-Up (suc fuel) n pivot i e a h l f g =
    let inside : leb n (suc i) ≡ false = ground arith in
    elim (Bool-cases (ltb_ℤ (a (suc i)) pivot)) [
      | inl below ↦
          let next : suc i < e = ground arith in
          let (i', run, u) = scan_up-Up fuel n pivot (suc i) e a next l (omega arith) g in
          (
            i',
            rw (inside, below) run,
            record {
              after = omega (arith, u.after);
              end = u.end;
              here = u.here;
              passed = λ q b d. ground (arith, u.passed q);
            },
          )
      | inr stop ↦ (
        suc i,
        rw (inside, stop) refl,
        record {
          after = omega arith;
          end = omega arith;
          here = ground arith;
          passed = λ q b d. absurd (omega arith);
        },
      )
    ]

-- The last place before `j` whose value is not above the pivot; `s` is such a place.
record Down (pivot : ℤ) (s j j' : ℕ) (a : Array) : Type 0 where
  before : j' < j
  start : s ≤ j'
  here : a j' ≤ℤ pivot
  passed : (q : ℕ) → j' < q → q < j → pivot ≤ℤ a q

scan_down-Down :
    (pivot : ℤ) (s j : ℕ) (a : Array)
    → s < j
    → a s ≤ℤ pivot
    → (j' : ℕ) × (scan_down pivot j a ≡ some j') × Down pivot s j j' a
unfolding scan_down
scan_down-Down pivot s zero a h g = absurd (omega arith)
scan_down-Down pivot s (suc j) a h g = elim (Bool-cases (ltb_ℤ pivot (a j))) [
  | inl above ↦
      let next : s < j = ground arith in
      let (j', run, d) = scan_down-Down pivot s j a next g in
      (
        j',
        rw above run,
        record {
          before = omega (arith, d.before);
          start = d.start;
          here = d.here;
          passed = λ q b e. ground (arith, d.passed q);
        },
      )
  | inr stop ↦ (
    j,
    rw stop refl,
    record {
      before = omega arith;
      start = omega arith;
      here = ground arith;
      passed = λ q b e. absurd (omega arith);
    },
  )
]

-- No value up to `i` is above the pivot, and none from `j` to `suc t` is below it; the pivot itself
-- stands at `t`.
pub record IsBetween (lo t i j : ℕ) (pivot : ℤ) (a : Array) : Type 0 where
  pub from : lo ≤ i
  pub order : i < j
  pub end : j ≤ t
  pub low : (q : ℕ) → lo ≤ q → q ≤ i → a q ≤ℤ pivot
  pub high : (q : ℕ) → j ≤ q → q ≤ suc t → pivot ≤ℤ a q
  pub kept : a t ≡ pivot

-- What the loop leaves: the array is divided at `i`.
pub record Divided (lo t : ℕ) (pivot : ℤ) (a : Array) (i : ℕ) (b : Array) : Type 0 where
  pub from : lo < i
  pub end : i ≤ t
  pub low : (q : ℕ) → lo ≤ q → q < i → b q ≤ℤ pivot
  pub high : (q : ℕ) → i ≤ q → q ≤ suc t → pivot ≤ℤ b q
  pub kept : b t ≡ pivot
  pub moved : Moved lo (suc t) a b

met :
    (lo t i j i' j' : ℕ) (pivot : ℤ) (a : Array)
    → IsBetween lo t i j pivot a
    → Up pivot i j i' a
    → Down pivot i j j' a
    → j' ≤ i'
    → Divided lo t pivot a i' a
met lo t i j i' j' pivot a s u d h = record {
  from = omega (arith, s.from, u.after);
  end = omega (arith, u.end, s.end);
  low = λ q f l. ground (arith, s.low q f, u.passed q);
  high = λ q f l. ground (arith, s.high q, d.passed q, u.here, u.end);
  kept = s.kept;
  moved = Moved-refl lo (suc t) a;
}

swapped :
    (lo t i j i' j' : ℕ) (pivot : ℤ) (a : Array)
    → IsBetween lo t i j pivot a
    → Up pivot i j i' a
    → Down pivot i j j' a
    → i' < j'
    → IsBetween lo t i' j' pivot (swap_int a i' j')
unfolding swap_int write
swapped lo t i j i' j' pivot a s u d h = record {
  from = omega (arith, s.from, u.after);
  order = h;
  end = omega (arith, d.before, s.end);
  low = λ q f l. ground (arith, s.low q f, u.passed q, d.here);
  high = λ q f l. ground (arith, s.high q, d.passed q, u.here);
  kept = ground (arith, s.kept, d.before, s.end);
}

pub partition_loop-Divided :
    (fuel n lo t i j : ℕ) (pivot : ℤ) (a : Array)
    → IsBetween lo t i j pivot a
    → j ≤ i + fuel
    → suc t < n
    → (i' : ℕ) × (b : Array) × (partition_loop fuel n pivot i j a ≡ some (i', b))
      × Divided lo t pivot a i' b
unfolding partition_loop
partition_loop-Divided zero n lo t i j pivot a s f l = absurd (omega (arith, s.order))
partition_loop-Divided (suc fuel) n lo t i j pivot a s f l =
    let (i', up, u) =
      scan_up-Up n n pivot i j a s.order (omega (arith, s.end)) (omega (arith, s.end))
        (s.high j (omega arith) (omega (arith, s.end))) in
    let (j', down, d) = scan_down-Down pivot i j a s.order (s.low i s.from (omega arith)) in
    elim (Bool-cases (leb j' i')) [
      | inl meet ↦ (
        i',
        a,
        rw (up, down, meet, partition_loop) refl,
        met lo t i j i' j' pivot a s u d (ground arith),
      )
      | inr apart ↦
          let order : i' < j' = ground arith in
          let (k, b, run, v) =
            partition_loop-Divided fuel n lo t i' j' pivot (swap_int a i' j')
              (swapped lo t i j i' j' pivot a s u d order) (omega (arith, u.after, d.before)) l in
          (
            k,
            b,
            rw (up, down, apart, partition_loop) run,
            record {
              from = v.from;
              end = v.end;
              low = v.low;
              high = v.high;
              kept = v.kept;
              moved =
                  Moved-trans
                    (Moved-swap_int lo (suc t) i' j' a (omega (arith, s.from, u.after))
                      (omega (arith, u.end, s.end)) (omega (arith, s.from, u.after))
                      (omega (arith, d.before, s.end)))
                    v.moved;
            },
          )
    ]
