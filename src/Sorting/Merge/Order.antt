-- ===== src/Sorting/Merge/Order.antt =====
-- `merge` and `merge_sort`.
use c_programming.Prelude.{
  ℕ, zero, suc, ◌+◌, ◌-◌, ◌/◌, ◌≤◌, ◌<◌, ◌≡◌, refl, leb, ◌==◌, arith, some, Bool-cases, inl, inr,
  ◌∙◌, subst,
}
use c_programming.Prelude.Int.{ℤ}
use c_programming.Sorting.{Array, write}
use c_programming.Sorting.Arrays.{
  occurrences, Rearranged, IsSorted, Rearranged-refl, Rearranged-trans, widened,
}
use c_programming.Sorting.Merge.{
  copy, Merging, merge_both, drain_left, merge, merge_sort_rec, merge_sort,
}
use c_programming.Sorting.Merge.Step.{
  IsRun, IsMerging, merge_both-IsMerging, drain_left-IsMerging, drain_right-IsMerging,
}

copy_before : (left k : ℕ) (arr tmp : Array) (p : ℕ) → p < k → copy left k arr tmp p ≡ tmp p
unfolding copy write
copy_before zero k arr tmp p h = refl
copy_before (suc left) k arr tmp p h =
    ground (arith, copy_before left (suc k) arr (write tmp k (arr k)) p)

copy_here :
    (left k : ℕ) (arr tmp : Array) (p : ℕ) → k ≤ p → p < k + left → copy left k arr tmp p ≡ arr p
unfolding copy write
copy_here zero k arr tmp p h l = absurd (omega arith)
copy_here (suc left) k arr tmp p h l = ground (
  arith,
  copy_here left (suc k) arr (write tmp k (arr k)) p,
  copy_before left (suc k) arr (write tmp k (arr k)) p,
)

-- Arrays that agree from `lo` on gain the same occurrences from there.
occurrences_from :
    (v : ℤ) (a b : Array) (lo n : ℕ)
    → lo ≤ n
    → ((p : ℕ) → lo ≤ p → p < n → a p ≡ b p)
    → occurrences v a n + occurrences v b lo ≡ occurrences v b n + occurrences v a lo
unfolding occurrences
occurrences_from v a b lo zero h same = ground arith
occurrences_from v a b lo (suc n) h same = elim (Bool-cases (lo == suc n)) [
  | inl all ↦ ground arith
  | inr part ↦
      let inner = occurrences_from v a b lo n (ground arith) (λ p f l. same p f (omega arith)) in
      ground (arith, inner, same n)
]

-- `b` is `a` with the places from `lo` to `hi` put in order.
pub record Ordered (a b : Array) (lo hi : ℕ) : Type 0 where
  pub run : IsRun b lo (suc hi)
  pub same : Rearranged a b (suc hi)
  pub under : (p : ℕ) → p < lo → b p ≡ a p

merged :
    (lo mid hi : ℕ) (old tmp : Array) (s : Merging)
    → IsMerging lo mid hi old tmp s
    → mid < s.i
    → hi < s.j
    → lo ≤ suc hi
    → ((p : ℕ) → lo ≤ p → p < suc hi → tmp p ≡ old p)
    → Ordered old s.arr lo hi
merged lo mid hi old tmp s m gone₁ gone₂ h copied =
    let i_end : s.i ≡ suc mid = omega (arith, m.left_end) in
    let j_end : s.j ≡ suc hi = omega (arith, m.right_end) in
    let k_end : s.k ≡ suc hi = omega (arith, m.place) in
    record {
      run = λ p q f b e. m.run p q f b (omega arith);
      same = record {
        counts = λ v.
            let c = m.counts v in
            let c' =
              subst
                (λ n.
                  occurrences v s.arr n + occurrences v tmp lo + occurrences v tmp (suc mid)
                  ≡ occurrences v old lo + occurrences v tmp s.i + occurrences v tmp s.j)
                k_end c in
            ground (arith, c', i_end, j_end, occurrences_from v tmp old lo (suc hi) h copied);
        outside = λ p e. m.over p (omega arith);
      };
      under = m.under;
    }

merge-Ordered :
    (lo mid hi : ℕ) (arr tmp : Array)
    → lo ≤ mid
    → mid < hi
    → IsRun arr lo (suc mid)
    → IsRun arr (suc mid) (suc hi)
    → Ordered arr ((merge lo mid hi arr tmp).0) lo hi
unfolding merge
merge-Ordered lo mid hi arr tmp h l first second =
    let rounds = suc hi - lo in
    let t = copy rounds lo arr tmp in
    let start : Merging = record { i = lo; j = suc mid; k = lo; arr = arr } in
    let copied : (p : ℕ) → lo ≤ p → p < suc hi → t p ≡ arr p =
      λ p f e. copy_here rounds lo arr tmp p f (omega arith) in
    let one : IsRun t lo (suc mid) =
      λ p q f b e. ground (arith, first p q f b e, copied p, copied q) in
    let two : IsRun t (suc mid) (suc hi) =
      λ p q f b e. ground (arith, second p q f b e, copied p, copied q) in
    let begun : IsMerging lo mid hi arr t start = record {
      place = omega arith;
      left = omega arith;
      left_end = omega arith;
      right = omega arith;
      right_end = omega arith;
      run = λ p q f b e. absurd (omega arith);
      lower_left = λ p q f b. absurd (omega arith);
      lower_right = λ p q f b. absurd (omega arith);
      counts = λ v. refl;
      under = λ p e. refl;
      over = λ p e. refl;
    } in
    let both = merge_both rounds mid hi t start in
    let (m₁, used) =
      merge_both-IsMerging lo mid hi arr t one two rounds start begun (omega arith) in
    let (m₂, gone) =
      drain_left-IsMerging lo mid hi arr t one two rounds both m₁ (omega (arith, m₁.left)) used in
    let left = drain_left rounds mid t both in
    let (m₃, gone₁, gone₂) =
      drain_right-IsMerging lo mid hi arr t one two rounds left m₂ (omega (arith, m₂.right)) gone in
    merged lo mid hi arr t _ m₃ gone₁ gone₂ (omega arith) copied

short_Ordered : (a : Array) (lo hi : ℕ) → hi ≤ lo → Ordered a a lo hi
short_Ordered a lo hi h = record {
  run = λ p q f b e. absurd (omega arith);
  same = Rearranged-refl a (suc hi);
  under = λ p f. refl;
}

joined :
    (lo mid hi : ℕ) (a b c tmp : Array)
    → lo ≤ mid
    → mid < hi
    → Ordered a b lo mid
    → Ordered b c (suc mid) hi
    → Ordered a ((merge lo mid hi c tmp).0) lo hi
joined lo mid hi a b c tmp h l first second =
    let kept : IsRun c lo (suc mid) =
      λ p q f before e. ground (arith, first.run p q f before e, second.under p, second.under q) in
    let m = merge-Ordered lo mid hi c tmp h l kept second.run in
    record {
      run = m.run;
      same =
          Rearranged-trans (widened a b (suc mid) (suc hi) (omega arith) first.same)
            (Rearranged-trans second.same m.same);
      under = λ p f. m.under p f ∙ second.under p (omega arith) ∙ first.under p f;
    }

merge_sort_rec-Ordered :
    (fuel lo hi : ℕ) (arr tmp : Array)
    → hi < lo + fuel
    → Ordered arr ((merge_sort_rec fuel lo hi arr tmp).0) lo hi
unfolding merge_sort_rec
merge_sort_rec-Ordered zero lo hi arr tmp enough = short_Ordered arr lo hi (omega arith)
merge_sort_rec-Ordered (suc fuel) lo hi arr tmp enough =
    let mid = lo + (hi - lo) / 2 in
    let (arr₁, tmp₁) = merge_sort_rec fuel lo mid arr tmp in
    let (arr₂, tmp₂) = merge_sort_rec fuel (suc mid) hi arr₁ tmp₁ in
    elim (Bool-cases (leb hi lo)) [
      | inl short ↦ rw (short, merge_sort_rec) (short_Ordered arr lo hi (ground arith))
      | inr long ↦
          rw (long, merge_sort_rec)
            (joined lo mid hi arr arr₁ arr₂ tmp₂ (omega arith) (ground arith)
              (merge_sort_rec-Ordered fuel lo mid arr tmp (ground arith))
              (merge_sort_rec-Ordered fuel (suc mid) hi arr₁ tmp₁ (ground arith)))
    ]

-- Where `malloc` answers memory, whatever it holds, `merge_sort` ends and leaves the first `n` places
-- of the array in ascending order, with the values that stood there, each as often, and changes no
-- other place.
pub merge_sort-IsSorted :
    (tmp a : Array) (n : ℕ)
    → (b : Array) × (merge_sort (some tmp) a n ≡ some b) × IsSorted b n × Rearranged a b n
unfolding merge_sort merge_sort_rec
merge_sort-IsSorted tmp a zero = (a, refl, (λ p q b e. absurd (omega arith)), Rearranged-refl a 0)
merge_sort-IsSorted tmp a (suc n) =
    let last : suc n - 1 ≡ n = omega arith in
    let o = merge_sort_rec-Ordered (suc n) 0 n a tmp (omega arith) in
    (
      (merge_sort_rec (suc n) 0 n a tmp).0,
      rw last refl,
      (λ p q b e. o.run p q (omega arith) b e),
      o.same,
    )
