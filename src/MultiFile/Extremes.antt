-- ===== src/MultiFile/Extremes.antt =====
-- stats_min and stats_max of exercises/19_multi_file/stats.c.
use c_programming.Prelude.{
  ℕ, ◌+◌, ◌≡◌, refl, sym, ap, subst, ◌∙◌, Bool, true, false, some, List, [], ◌∷◌, ◌⊎◌,
  if◌then◌else◌, Bool-cases, inl, inr,
}
use c_programming.MultiFile.{Double, min_loop, stats_min, max_loop, stats_max}

-- `r` is one of the values.
abbrev pub In : {D : Type 0} → D → List D → Type 0
In r [] = ⊥
In r (v ∷ arr) = (r ≡ v) ⊎ In r arr

-- None of the values is better than `r`.
abbrev pub NoneBetter : {D : Type 0} → (D → D → Bool) → D → List D → Type 0
NoneBetter better r [] = Unit {0}
NoneBetter better r (v ∷ arr) = (better v r ≡ false) × NoneBetter better r arr

-- A comparison that is transitive, by which no value is better than itself: `<` without a NaN.
pub record IsOrder {D : Type 0} (better : D → D → Bool) : Type 0 where
  pub irreflexive : (a : D) → better a a ≡ false
  pub transitive : (a b c : D) → better a b ≡ true → better b c ≡ true → better a c ≡ true

module _ {D : Type 0} (better : D → D → Bool) where
  -- The loop of both functions.
  abbrev pick : List D → D → D
  pick [] m = m
  pick (v ∷ arr) m = pick arr (if better v m then v else m)

  abbrev Lower : D → D → Type 0
  Lower r m = (r ≡ m) ⊎ (better r m ≡ true)

  module _ (order : IsOrder better) where
    not_both : (a b : D) → better a b ≡ true → better b a ≡ true → ⊥
    not_both a b low high =
        let here = order.transitive a b a low high in let never = order.irreflexive a in cc

    not_better : (r m : D) → Lower r m → better m r ≡ false
    not_better r m (inl e) = ap (λ a. better m a) e ∙ order.irreflexive m
    not_better r m (inr low) = elim (Bool-cases (better m r)) [
      | inl high ↦ absurd (not_both r m low high)
      | inr e ↦ e
    ]

    through_middle : (r v m : D) → Lower r v → better v m ≡ true → Lower r m
    through_middle r v m (inl e) low = inr (ap (λ a. better a m) e ∙ low)
    through_middle r v m (inr lower) low = inr (order.transitive r v m lower low)

    -- A value that is not better than `m` is not better than what is better than `m`.
    still_not : (r v m : D) → Lower r m → better v m ≡ false → better v r ≡ false
    still_not r v m low not_low = elim (Bool-cases (better v r)) [
      | inl high ↦ (let above = lower_first low high in cc)
      | inr e ↦ e
    ]
      where
        lower_first : Lower r m → better v r ≡ true → better v m ≡ true
        lower_first (inl e) high = ap (λ a. better v a) (sym e) ∙ high
        lower_first (inr lower) high = order.transitive v r m high lower

    -- What the loop leaves: a value of the array or `m`, with none better.
    abbrev Best : D → D → List D → Type 0
    Best r m arr = Lower r m × NoneBetter better r arr × In r (m ∷ arr)

    pick-Best : (arr : List D) (m : D) → Best (pick arr m) m arr
    pick-Best [] m = (inl refl, tt, inl refl)
    pick-Best (v ∷ arr) m = elim (Bool-cases (better v m)) [
      | inl lower ↦
          subst (λ b. Best (pick arr (if b then v else m)) m (v ∷ arr)) (sym lower)
            (let (low, none_better, at) = pick-Best arr v in
              let r = pick arr v in
              (through_middle r v m low lower, (not_better r v low, none_better), inr at))
      | inr not_lower ↦
          subst (λ b. Best (pick arr (if b then v else m)) m (v ∷ arr)) (sym not_lower)
            (let (low, none_better, at) = pick-Best arr m in
              let r = pick arr m in
              (
                low,
                (still_not r v m low not_lower, none_better),
                elim at [ inl e ↦ inl e | inr i ↦ inr (inr i) ],
              ))
    ]

min_loop-pick :
    {D : Type 0} (d : Double D) (arr : List D) (m : D) → min_loop d arr m ≡ pick d.less arr m
unfolding min_loop
min_loop-pick d [] m = refl
min_loop-pick d (v ∷ arr) m = min_loop-pick d arr (if d.less v m then v else m)

max_loop-pick :
    {D : Type 0} (d : Double D) (arr : List D) (m : D)
    → max_loop d arr m ≡ pick (λ a b. d.less b a) arr m
unfolding max_loop
max_loop-pick d [] m = refl
max_loop-pick d (v ∷ arr) m = max_loop-pick d arr (if d.less m v then v else m)

-- `r` is the best of the values.
abbrev pub IsBest : {D : Type 0} → (D → D → Bool) → D → List D → Type 0
IsBest better r arr = In r arr × NoneBetter better r arr

-- On an array that is not empty, whose values the comparison orders, stats_min returns one of them of
-- which none is less, stats_max one of which none is greater, and each counts one call.
pub stats_min-stats_max :
    (D : Type 0) (d : Double D) (v : D) (arr : List D) (stats_calls : ℕ)
    → IsOrder d.less
    → (least most : D) × (stats_min d (v ∷ arr) stats_calls ≡ some (least, stats_calls + 1))
      × (stats_max d (v ∷ arr) stats_calls ≡ some (most, stats_calls + 1))
      × IsBest d.less least (v ∷ arr)
      × IsBest (λ a b. d.less b a) most (v ∷ arr)
unfolding stats_min stats_max
stats_min-stats_max D d v arr stats_calls order =
    let flipped : IsOrder (λ a b. d.less b a) = record {
      irreflexive = order.irreflexive;
      transitive = λ a b c ab bc. order.transitive c b a bc ab;
    } in
    let (low, none_less, at) = pick-Best d.less order arr v in
    let (high, none_more, at') = pick-Best (λ a b. d.less b a) flipped arr v in
    let least = pick d.less arr v in
    let most = pick (λ a b. d.less b a) arr v in
    (
      least,
      most,
      ap (λ r. some (r, stats_calls + 1)) (min_loop-pick d arr v),
      ap (λ r. some (r, stats_calls + 1)) (max_loop-pick d arr v),
      (at, (not_better d.less order least v low, none_less)),
      (at', (not_better (λ a b. d.less b a) flipped most v high, none_more)),
    )
