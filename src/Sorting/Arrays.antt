-- ===== src/Sorting/Arrays.antt =====
-- How often a value stands in an array, and arrays in order.
use c_programming.Prelude.{
  ℕ, zero, suc, ◌+◌, ◌≤◌, ◌<◌, ◌≡◌, refl, if◌then◌else◌, ◌==◌, arith, ◌∙◌, Bool-cases, inl, inr,
}
use c_programming.Prelude.Int.{ℤ, ◌≤ℤ◌, ◌==ℤ◌}
use c_programming.Sorting.{Array, write, swap_int}

-- 1 where the two are equal.
abbrev pub one_if : ℤ → ℤ → ℕ
one_if v w = if v ==ℤ w then 1 else 0

-- How often `v` stands in the first `n` places.
unfoldable pub occurrences : ℤ → Array → ℕ → ℕ
occurrences v a zero = 0
occurrences v a (suc n) = one_if v (a n) + occurrences v a n

-- The first `n` places of the two hold the same values, each as often, and all other places are the
-- same.
pub record Rearranged (a b : Array) (n : ℕ) : Type 0 where
  pub counts : (v : ℤ) → occurrences v b n ≡ occurrences v a n
  pub outside : (i : ℕ) → n ≤ i → b i ≡ a i

pub Rearranged-refl : (a : Array) (n : ℕ) → Rearranged a a n
Rearranged-refl a n = record { counts = λ v. refl; outside = λ i h. refl }

pub Rearranged-trans :
    {a b c : Array} {n : ℕ} → Rearranged a b n → Rearranged b c n → Rearranged a c n
Rearranged-trans r s = record {
  counts = λ v. s.counts v ∙ r.counts v;
  outside = λ i h. s.outside i h ∙ r.outside i h;
}

-- The first `n` places are in ascending order.
abbrev pub IsSorted : Array → ℕ → Type 0
IsSorted a n = (p q : ℕ) → p < q → q < n → a p ≤ℤ a q

pub write_beyond :
    (v : ℤ) (a : Array) (i : ℕ) (x : ℤ) (n : ℕ)
    → n ≤ i
    → occurrences v (write a i x) n ≡ occurrences v a n
unfolding occurrences write
write_beyond v a i x zero h = refl
write_beyond v a i x (suc n) h = ground (arith, write_beyond v a i x n)

pub occurrences-write :
    (v : ℤ) (a : Array) (i : ℕ) (x : ℤ) (n : ℕ)
    → i < n
    → occurrences v (write a i x) n + one_if v (a i) ≡ occurrences v a n + one_if v x
unfolding occurrences write
occurrences-write v a i x zero h = absurd (omega arith)
occurrences-write v a i x (suc n) h =
    ground (arith, occurrences-write v a i x n, write_beyond v a i x n)

pub occurrences-swap_int :
    (v : ℤ) (a : Array) (i j n : ℕ)
    → i < n
    → j < n
    → occurrences v (swap_int a i j) n ≡ occurrences v a n
unfolding swap_int
occurrences-swap_int v a i j n hi hj = ground (
  arith,
  occurrences-write v (write a i (a j)) j (a i) n hj,
  occurrences-write v a i (a j) n hi,
  written a i j,
)
  where
    written : (a : Array) (i j : ℕ) → write a i (a j) j ≡ a j
    written a i j = unfold write in ground arith

pub Rearranged-swap_int : (a : Array) (i j n : ℕ) → i < n → j < n → Rearranged a (swap_int a i j) n
unfolding swap_int write
Rearranged-swap_int a i j n hi hj = record {
  counts = λ v. occurrences-swap_int v a i j n hi hj;
  outside = λ k h. ground arith;
}

occurrences_widened :
    (v : ℤ) (a b : Array) (m n : ℕ)
    → m ≤ n
    → Rearranged a b m
    → occurrences v b n ≡ occurrences v a n
unfolding occurrences
occurrences_widened v a b m zero h r = refl
occurrences_widened v a b m (suc n) h r = elim (Bool-cases (m == suc n)) [
  | inl all ↦ ground (arith, r.counts v)
  | inr part ↦ ground (arith, occurrences_widened v a b m n (ground arith) r, r.outside n)
]

-- A rearrangement of the first `m` places is one of more.
pub widened : (a b : Array) (m n : ℕ) → m ≤ n → Rearranged a b m → Rearranged a b n
widened a b m n h r = record {
  counts = λ v. occurrences_widened v a b m n h r;
  outside = λ i l. r.outside i (omega arith);
}
