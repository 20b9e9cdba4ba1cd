-- ===== src/Sorting/Quick/Moved.antt =====
-- Arrays that differ by a rearrangement of the places from `lo` to `hi`.
use c_programming.Prelude.{
  ℕ, suc, ◌≤◌, ◌<◌, ◌≡◌, refl, Bool, true, leb, ◌&&◌, arith, Bool-cases, inl, inr, ◌∙◌,
}
use c_programming.Prelude.Int.{ℤ, ltb_ℤ}
use c_programming.Sorting.{Array, write, swap_int}
use c_programming.Sorting.Arrays.{
  Rearranged, Rearranged-refl, Rearranged-trans, Rearranged-swap_int, widened,
}
use c_programming.Sorting.Quick.{in_order}

-- A test that all values there pass is passed by all of the new ones.
pub record Moved (lo hi : ℕ) (a b : Array) : Type 0 where
  pub same : Rearranged a b (suc hi)
  pub under : (p : ℕ) → p < lo → b p ≡ a p
  pub all :
      (test : ℤ → Bool)
      → ((p : ℕ) → lo ≤ p → p ≤ hi → test (a p) ≡ true)
      → (p : ℕ) → lo ≤ p
      → p ≤ hi
      → test (b p) ≡ true

pub Moved-refl : (lo hi : ℕ) (a : Array) → Moved lo hi a a
Moved-refl lo hi a = record {
  same = Rearranged-refl a (suc hi);
  under = λ p h. refl;
  all = λ test t p h l. t p h l;
}

pub Moved-trans : {lo hi : ℕ} {a b c : Array} → Moved lo hi a b → Moved lo hi b c → Moved lo hi a c
Moved-trans m k = record {
  same = Rearranged-trans m.same k.same;
  under = λ p h. k.under p h ∙ m.under p h;
  all = λ test t p h l. k.all test (λ q f e. m.all test t q f e) p h l;
}

pub Moved-swap_int :
    (lo hi i j : ℕ) (a : Array) → lo ≤ i → i ≤ hi → lo ≤ j → j ≤ hi → Moved lo hi a (swap_int a i j)
unfolding swap_int write
Moved-swap_int lo hi i j a h₁ h₂ h₃ h₄ = record {
  same = Rearranged-swap_int a i j (suc hi) (omega arith) (omega arith);
  under = λ p h. ground arith;
  all = λ test t p h l. ground (arith, t i, t j, t p);
}

pub Moved-in_order :
    (lo hi i j : ℕ) (a : Array) → lo ≤ i → i ≤ hi → lo ≤ j → j ≤ hi → Moved lo hi a (in_order i j a)
unfolding in_order
Moved-in_order lo hi i j a h₁ h₂ h₃ h₄ = elim (Bool-cases (ltb_ℤ (a j) (a i))) [
  | inl wrong ↦ rw wrong (Moved-swap_int lo hi i j a h₁ h₂ h₃ h₄)
  | inr right ↦ rw right (Moved-refl lo hi a)
]

-- A rearrangement of a part is one of the whole.
pub Moved-within :
    (lo hi lo' hi' : ℕ) (a b : Array) → lo ≤ lo' → hi' ≤ hi → Moved lo' hi' a b → Moved lo hi a b
Moved-within lo hi lo' hi' a b h l m = record {
  same = widened a b (suc hi') (suc hi) (omega arith) m.same;
  under = λ p f. m.under p (omega arith);
  all = λ test t p f e. elim (Bool-cases (leb lo' p && leb p hi')) [
    | inl inside ↦
        m.all test (λ q g d. t q (omega arith) (omega arith)) p (ground arith) (ground arith)
    | inr outside ↦ ground (arith, t p f e, m.under p, m.same.outside p)
  ];
}
