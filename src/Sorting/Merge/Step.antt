-- ===== src/Sorting/Merge/Step.antt =====
-- What stays true while two sorted runs are merged.
use c_programming.Prelude.{ℕ, zero, suc, ◌+◌, ◌≤◌, ◌<◌, ◌≡◌, leb, ◌&&◌, arith, Bool-cases, inl, inr}
use c_programming.Prelude.Int.{ℤ, ◌≤ℤ◌, leb_ℤ}
use c_programming.Sorting.{Array, write}
use c_programming.Sorting.Arrays.{occurrences, write_beyond}
use c_programming.Sorting.Merge.{
  Merging, take_left, take_right, merge_both, drain_left, drain_right,
}

-- The places from `lo` up to `n` are in order.
abbrev pub IsRun : Array → ℕ → ℕ → Type 0
IsRun a lo n = (p q : ℕ) → lo ≤ p → p < q → q < n → a p ≤ℤ a q

module _ (lo mid hi : ℕ) (old tmp : Array) where
  -- The places from `lo` up to `k` hold, in order, what has been taken from the two runs, and no
  -- value there is above one that is still to be taken; all other places are as in `old`.
  pub record IsMerging (s : Merging) : Type 0 where
    pub place : s.k + suc mid ≡ s.i + s.j
    pub left : lo ≤ s.i
    pub left_end : s.i ≤ suc mid
    pub right : suc mid ≤ s.j
    pub right_end : s.j ≤ suc hi
    pub run : IsRun s.arr lo s.k
    pub lower_left : (p q : ℕ) → lo ≤ p → p < s.k → s.i ≤ q → q ≤ mid → s.arr p ≤ℤ tmp q
    pub lower_right : (p q : ℕ) → lo ≤ p → p < s.k → s.j ≤ q → q ≤ hi → s.arr p ≤ℤ tmp q
    pub counts :
        (v : ℤ)
        → occurrences v s.arr s.k + occurrences v tmp lo + occurrences v tmp (suc mid)
          ≡ occurrences v old lo + occurrences v tmp s.i + occurrences v tmp s.j
    pub under : (p : ℕ) → p < lo → s.arr p ≡ old p
    pub over : (p : ℕ) → s.k ≤ p → s.arr p ≡ old p

  module _ (first : IsRun tmp lo (suc mid)) (second : IsRun tmp (suc mid) (suc hi)) where
    take_left-IsMerging :
        (s : Merging)
        → IsMerging s
        → s.i ≤ mid
        → ((q : ℕ) → s.j ≤ q → q ≤ hi → tmp s.i ≤ℤ tmp q)
        → IsMerging (take_left tmp s)
    unfolding write occurrences
    take_left-IsMerging s m h least = record {
      place = omega (arith, m.place);
      left = omega (arith, m.left);
      left_end = omega arith;
      right = m.right;
      right_end = m.right_end;
      run = λ p q f before last. ground (arith, m.run p q f before, m.lower_left p s.i f);
      lower_left = λ p q f l g e. ground (arith, m.lower_left p q f, first s.i q m.left);
      lower_right = λ p q f l g e. ground (arith, m.lower_right p q f, least q g e);
      counts = λ v. ground (arith, m.counts v, write_beyond v s.arr s.k (tmp s.i) s.k);
      under = λ p h. ground (arith, m.under p h, m.place, m.left, m.right);
      over = λ p h. ground (arith, m.over p);
    }

    take_right-IsMerging :
        (s : Merging)
        → IsMerging s
        → s.j ≤ hi
        → ((q : ℕ) → s.i ≤ q → q ≤ mid → tmp s.j ≤ℤ tmp q)
        → IsMerging (take_right tmp s)
    unfolding write occurrences
    take_right-IsMerging s m h least = record {
      place = omega (arith, m.place);
      left = m.left;
      left_end = m.left_end;
      right = omega (arith, m.right);
      right_end = omega arith;
      run = λ p q f before last. ground (arith, m.run p q f before, m.lower_right p s.j f);
      lower_left = λ p q f l g e. ground (arith, m.lower_left p q f, least q g e);
      lower_right = λ p q f l g e. ground (arith, m.lower_right p q f, second s.j q m.right);
      counts = λ v. ground (arith, m.counts v, write_beyond v s.arr s.k (tmp s.j) s.k);
      under = λ p h. ground (arith, m.under p h, m.place, m.left, m.right);
      over = λ p h. ground (arith, m.over p);
    }

    -- After the first loop one of the runs is used up.
    pub merge_both-IsMerging :
        (fuel : ℕ) (s : Merging)
        → IsMerging s
        → suc mid + suc hi ≤ s.i + s.j + fuel
        → IsMerging (merge_both fuel mid hi tmp s)
          × ((merge_both fuel mid hi tmp s).i ≤ mid → hi < (merge_both fuel mid hi tmp s).j)
    unfolding merge_both
    merge_both-IsMerging zero s m enough = (m, λ h. omega (arith, m.left_end, m.right_end))
    merge_both-IsMerging (suc fuel) s m enough = elim (Bool-cases (leb s.i mid && leb s.j hi)) [
      | inl more ↦ elim (Bool-cases (leb_ℤ (tmp s.i) (tmp s.j))) [
        | inl less ↦
            rw (more, less)
              (merge_both-IsMerging fuel (take_left tmp s)
                (take_left-IsMerging s m (ground arith)
                  (λ q h e. ground (arith, second s.j q m.right)))
                (omega arith))
        | inr greater ↦
            rw (more, greater)
              (merge_both-IsMerging fuel (take_right tmp s)
                (take_right-IsMerging s m (ground arith)
                  (λ q h e. ground (arith, first s.i q m.left)))
                (omega arith))
      ]
      | inr done ↦ rw done (m, λ h. ground arith)
    ]

    -- After the second the left one is.
    pub drain_left-IsMerging :
        (fuel : ℕ) (s : Merging)
        → IsMerging s
        → suc mid ≤ s.i + fuel
        → (s.i ≤ mid → hi < s.j)
        → IsMerging (drain_left fuel mid tmp s) × (mid < (drain_left fuel mid tmp s).i)
    unfolding drain_left
    drain_left-IsMerging zero s m enough one = (m, omega arith)
    drain_left-IsMerging (suc fuel) s m enough one = elim (Bool-cases (leb s.i mid)) [
      | inl more ↦ rw more (
          drain_left-IsMerging fuel (take_left tmp s)
            (take_left-IsMerging s m (ground arith) (λ q h e. absurd (ground (arith, one))))
            (omega arith) (λ h. ground (arith, one)))
      | inr done ↦ rw done (m, ground arith)
    ]

    -- After the third both are.
    pub drain_right-IsMerging :
        (fuel : ℕ) (s : Merging)
        → IsMerging s
        → suc hi ≤ s.j + fuel
        → mid < s.i
        → IsMerging (drain_right fuel hi tmp s)
          × (mid < (drain_right fuel hi tmp s).i)
          × (hi < (drain_right fuel hi tmp s).j)
    unfolding drain_right
    drain_right-IsMerging zero s m enough one = (m, one, omega arith)
    drain_right-IsMerging (suc fuel) s m enough one = elim (Bool-cases (leb s.j hi)) [
      | inl more ↦ rw more (
          drain_right-IsMerging fuel (take_right tmp s)
            (take_right-IsMerging s m (ground arith) (λ q h e. absurd (omega arith))) (omega arith)
            one)
      | inr done ↦ rw done (m, one, ground arith)
    ]
