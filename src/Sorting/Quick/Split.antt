-- ===== src/Sorting/Quick/Split.antt =====
-- `median_of_three` and `partition`.
use c_programming.Prelude.{
  ℕ, zero, suc, ◌+◌, ◌-◌, ◌/◌, ◌≤◌, ◌<◌, ◌≡◌, refl, true, false, some, ltb, arith, Bool-cases, inl,
  inr, subst, sym, ◌⊎◌, ◌≢◌,
}
use c_programming.Prelude.Int.{ℤ, ◌≤ℤ◌, ltb_ℤ}
use c_programming.Sorting.{Array, write, swap_int}
use c_programming.Sorting.Quick.{in_order, median_of_three, partition, partition_loop}
use c_programming.Sorting.Quick.Moved.{Moved, Moved-trans, Moved-swap_int, Moved-in_order}
use c_programming.Sorting.Quick.Scan.{IsBetween, Divided, partition_loop-Divided}

-- `b` is a rearrangement of the places of `a` from `lo` to `hi` in which no value before the place
-- `p` is above the value there, and none after it below.
pub record IsSplit (a : Array) (lo hi p : ℕ) (b : Array) : Type 0 where
  pub from : lo ≤ p
  pub end : p ≤ hi
  pub low : (q : ℕ) → lo ≤ q → q < p → b q ≤ℤ b p
  pub high : (q : ℕ) → p < q → q ≤ hi → b p ≤ℤ b q
  pub moved : Moved lo hi a b

in_order_reads :
    (i j : ℕ) (a : Array)
    → i < j
    → (in_order i j a i ≤ℤ in_order i j a j)
      × (((in_order i j a i ≡ a i) × (in_order i j a j ≡ a j))
          ⊎ ((in_order i j a i ≡ a j) × (in_order i j a j ≡ a i)))
      × ((q : ℕ) → q ≢ i → q ≢ j → in_order i j a q ≡ a q)
unfolding in_order swap_int write
in_order_reads i j a h = elim (Bool-cases (ltb_ℤ (a j) (a i))) [
  | inl wrong ↦ rw wrong (ground arith, inr (ground arith, ground arith), λ q f g. ground arith)
  | inr right ↦ rw right (ground arith, inl (refl, refl), λ q f g. refl)
]

sorted_three :
    (a : Array) (lo m hi : ℕ)
    → lo < m
    → m < hi
    → let b = in_order m hi (in_order lo hi (in_order lo m a)) in (b lo ≤ℤ b m) × (b m ≤ℤ b hi)
sorted_three a lo m hi h l =
    let a₁ = in_order lo m a in
    let a₂ = in_order lo hi a₁ in
    let r₁ = in_order_reads lo m a h in
    let r₂ = in_order_reads lo hi a₁ (omega arith) in
    let r₃ = in_order_reads m hi a₂ l in
    let k₂ = (r₂.2) m (omega arith) (omega arith) in
    let k₃ = (r₃.2) lo (omega arith) (omega arith) in
    (ground (arith, r₁.0, r₂.0, (r₂.1), (r₃.1), k₂, k₃), r₃.0)

module _ (a : Array) (lo t m : ℕ) (h : lo < m) (l : m ≤ t) where
  abbrev three : Array
  three = in_order m (suc t) (in_order lo (suc t) (in_order lo m a))

  placed :
      (three lo ≤ℤ three m)
      → (three m ≤ℤ three (suc t))
      → IsBetween lo t lo t (swap_int three m t t) (swap_int three m t)
  unfolding swap_int write
  placed one two = record {
    from = omega arith;
    order = omega arith;
    end = omega arith;
    low = λ q f e. ground arith;
    high = λ q f e. ground arith;
    kept = refl;
  }

  three-Moved : Moved lo (suc t) a (swap_int three m t)
  three-Moved =
      Moved-trans
        (Moved-in_order lo (suc t) lo m a (omega arith) (omega arith) (omega arith) (omega arith))
        (Moved-trans
          (Moved-in_order lo (suc t) lo (suc t) _ (omega arith) (omega arith) (omega arith)
            (omega arith))
          (Moved-trans
            (Moved-in_order lo (suc t) m (suc t) _ (omega arith) (omega arith) (omega arith)
              (omega arith))
            (Moved-swap_int lo (suc t) m t _ (omega arith) (omega arith) (omega arith)
              (omega arith))))

median_of_three-IsBetween :
    (a : Array) (lo t : ℕ)
    → lo < t
    → let b = median_of_three a lo (suc t) in IsBetween lo t lo t (b t) b × Moved lo (suc t) a b
unfolding median_of_three
median_of_three-IsBetween a lo t h =
    let m = lo + (suc t - lo) / 2 in
    let back : suc t - 1 ≡ t = omega arith in
    let after : lo < m = omega arith in
    let before : m ≤ t = omega arith in
    let (one, two) = sorted_three a lo m (suc t) after (omega arith) in
    rw back (placed a lo t m after before one two, three-Moved a lo t m after before)

finished :
    (lo t i : ℕ) (pivot : ℤ) (a b : Array)
    → Divided lo t pivot a i b
    → IsSplit a lo (suc t) i (swap_int b i t)
unfolding swap_int write
finished lo t i pivot a b d = record {
  from = omega (arith, d.from);
  end = omega (arith, d.end);
  low = λ q f l. ground (arith, d.low q f, d.kept, d.end);
  high = λ q f l. ground (arith, d.high q, d.high i, d.kept, d.end);
  moved = Moved-trans d.moved (
      Moved-swap_int lo (suc t) i t b (omega (arith, d.from)) (omega (arith, d.end))
        (omega (arith, d.from, d.end)) (omega arith));
}

Moved-first :
    (a b : Array) (lo t i : ℕ) (c : Array)
    → Moved lo (suc t) a b
    → IsSplit b lo (suc t) i c
    → IsSplit a lo (suc t) i c
Moved-first a b lo t i c m s = record {
  from = s.from;
  end = s.end;
  low = s.low;
  high = s.high;
  moved = Moved-trans m s.moved;
}

pair_IsSplit : (a : Array) (lo : ℕ) → IsSplit a lo (suc lo) lo (in_order lo (suc lo) a)
pair_IsSplit a lo =
    let r = in_order_reads lo (suc lo) a (omega arith) in
    record {
      from = omega arith;
      end = omega arith;
      low = λ q f l. absurd (omega arith);
      high = λ q f l. ground (arith, r.0);
      moved =
          Moved-in_order lo (suc lo) lo (suc lo) a (omega arith) (omega arith) (omega arith)
            (omega arith);
    }

partition_short :
    (n : ℕ) (a : Array) (lo hi : ℕ)
    → ltb (hi - lo) 2 ≡ true
    → partition n a lo hi ≡ some (lo, in_order lo hi a)
unfolding partition
partition_short n a lo hi e = rw (e, partition) refl

partition_long :
    (n : ℕ) (a c : Array) (lo hi i : ℕ)
    → ltb (hi - lo) 2 ≡ false
    → let b = median_of_three a lo hi in
      partition_loop n n (b (hi - 1)) lo (hi - 1) b ≡ some (i, c)
      → partition n a lo hi ≡ some (i, swap_int c i (hi - 1))
unfolding partition
partition_long n a c lo hi i e run = rw (e, run, partition) refl

-- `partition` of a part with at least two places, inside the array, ends, reads no place outside the
-- array, and splits the part at the place that it returns.
pub partition-IsSplit :
    (n : ℕ) (a : Array) (lo hi : ℕ)
    → lo < hi
    → hi < n
    → (p : ℕ) × (b : Array) × (partition n a lo hi ≡ some (p, b)) × IsSplit a lo hi p b
partition-IsSplit n a lo zero h l = absurd (omega arith)
partition-IsSplit n a lo (suc t) h l = elim (Bool-cases (ltb (suc t - lo) 2)) [
  | inl two ↦
      let last : t ≡ lo = ground arith in
      (
        lo,
        in_order lo (suc t) a,
        partition_short n a lo (suc t) two,
        subst (λ u. IsSplit a lo (suc u) lo (in_order lo (suc u) a)) (sym last) (pair_IsSplit a lo),
      )
  | inr more ↦
      let b = median_of_three a lo (suc t) in
      let back : suc t - 1 ≡ t = omega arith in
      let (between, moved) = median_of_three-IsBetween a lo t (ground arith) in
      let (i, c, run, d) = partition_loop-Divided n n lo t lo t (b t) b between (omega arith) l in
      (
        i,
        swap_int c i t,
        subst
            (λ u.
              partition_loop n n (b u) lo u b ≡ some (i, c)
              → partition n a lo (suc t) ≡ some (i, swap_int c i u))
            back (partition_long n a c lo (suc t) i more) run,
        Moved-first a b lo t i _ moved (finished lo t i (b t) b c d),
      )
]
