-- ===== src/Interleave.antt =====
-- Threads as a list of positions, one for each: a step moves one of them. What the components with
-- threads share: weights summed over the threads, and predicates that hold of each.
use c_programming.Prelude.{
  ℕ, zero, suc, ◌+◌, ◌*◌, ◌≤◌, ◌<◌, ◌≡◌, refl, List, [], ◌∷◌, arith, Bool, true, false,
  if◌then◌else◌,
}

module _ {ℓ} {A : Type ℓ} where
  -- One thread goes from `p` to `q`, and the others stay where they are.
  pub data Turn (p q : A) : List A → List A → Type ℓ where
    here : (l : List A) → Turn p q (p ∷ l) (q ∷ l)
    there : (a : A) {l m : List A} → Turn p q l m → Turn p q (a ∷ l) (a ∷ m)

  -- `n` threads, all at `p`.
  abbrev pub team : ℕ → A → List A
  team zero p = []
  team (suc n) p = p ∷ team n p

  unfoldable pub total : (A → ℕ) → List A → ℕ
  total w [] = 0
  total w (p ∷ l) = w p + total w l

  abbrev pub Each {κ} : (A → Type κ) → List A → Type κ
  Each P [] = Unit
  Each P (p ∷ l) = P p × Each P l

  pub total-team : (w : A → ℕ) (n : ℕ) (p : A) → total w (team n p) ≡ n * w p
  unfolding total
  total-team w zero p = omega arith
  total-team w (suc n) p = grind (arith, total-team w n p)

  pub Turn-total :
      (w : A → ℕ) {p q : A} {l m : List A} → Turn p q l m → total w m + w p ≡ total w l + w q
  unfolding total
  Turn-total w (here l) = omega arith
  Turn-total w (there a t) = omega (arith, Turn-total w t)

  pub weight-le-total : (w : A → ℕ) {p q : A} {l m : List A} → Turn p q l m → w p ≤ total w l
  unfolding total
  weight-le-total w (here l) = omega arith
  weight-le-total w (there a t) = omega (arith, weight-le-total w t)

  -- A thread with some weight can be picked, wherever it goes.
  pub pick :
      (w : A → ℕ) (l : List A)
      → 0 < total w l
      → (p : A) × (0 < w p) × ((q : A) → (m : List A) × Turn p q l m)
  unfolding total
  pick w [] h = absurd (omega arith)
  pick w (p ∷ l) h = choose (w p) refl (pick w l)
    where
      choose :
          (k : ℕ)
          → w p ≡ k
          → (0 < total w l → (r : A) × (0 < w r) × ((q : A) → (m : List A) × Turn r q l m))
          → (r : A) × (0 < w r) × ((q : A) → (m : List A) × Turn r q (p ∷ l) m)
      choose (suc k) e rest = (p, omega arith, λ q. (q ∷ l, here l))
      choose zero e rest =
          let (r, heavy, go) = rest (omega arith) in
          (r, heavy, λ q. (p ∷ (go q).0, there p (go q).1))

  module _ {κ} (P : A → Type κ) where
    pub Each-team : (n : ℕ) {p : A} → P p → Each P (team n p)
    Each-team zero h = tt
    Each-team (suc n) h = (h, Each-team n h)

    pub Turn-at : {p q : A} {l m : List A} → Turn p q l m → Each P l → P p
    Turn-at (here l) h = h.0
    Turn-at (there a t) h = Turn-at t h.1

    -- Where `Q` follows from `P` for the threads that stay.
    pub Turn-Each {μ} :
        (Q : A → Type μ) {p q : A} {l m : List A}
        → ((a : A) → P a → Q a)
        → Turn p q l m
        → Each P l
        → Q q
        → Each Q m
    Turn-Each Q keep (here l) h new = (new, all l h.1)
      where
        all : (l : List A) → Each P l → Each Q l
        all [] h = tt
        all (a ∷ l) h = (keep a h.0, all l h.1)
    Turn-Each Q keep (there a t) h new = (keep a h.0, Turn-Each Q keep t h.1 new)

    -- Where the thread that moves is the only one with weight: the others are known to be light.
    pub Turn-alone {μ} :
        (Q : A → Type μ) (w : A → ℕ) {p q : A} {l m : List A}
        → ((a : A) → P a → w a ≡ 0 → Q a)
        → Turn p q l m
        → total w l ≤ 1
        → w p ≡ 1
        → Each P l
        → Q q
        → Each Q m
    unfolding total
    Turn-alone Q w keep (here l) few one h new = (new, all l (omega arith) h.1)
      where
        all : (l : List A) → total w l ≡ 0 → Each P l → Each Q l
        all [] e h = tt
        all (a ∷ l) e h = (keep a h.0 (omega arith), all l (omega arith) h.1)
    Turn-alone Q w keep (there a t) few one h new =
        let heavy = weight-le-total w t in
        (keep a h.0 (omega arith), Turn-alone Q w keep t (omega arith) one h.1 new)

-- A lock that is taken exactly where one thread holds it.
pub total_at_most : {m : ℕ} (b : Bool) → m ≡ (if b then 1 else 0) → m ≤ 1
total_at_most true e = omega arith
total_at_most false e = omega arith

pub none_in : {m : ℕ} {b : Bool} → m ≡ (if b then 1 else 0) → b ≡ false → m ≡ 0
none_in e free = ground arith

pub unlocked : {m : ℕ} (b : Bool) → m ≡ (if b then 1 else 0) → m ≡ 0 → b ≡ false
unlocked true e z = absurd (omega arith)
unlocked false e z = refl
