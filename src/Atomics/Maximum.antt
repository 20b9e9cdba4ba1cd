-- ===== src/Atomics/Maximum.antt =====
-- The compare-exchange loop of `section3_cas` in exercises/29_atomics/atomics.c: an atomic maximum.
-- The values are not negative.
use c_programming.Prelude.{
  ℕ, zero, suc, ◌≤◌, ◌≡◌, refl, Bool, true, false, Option, none, some, List, [], ◌∷◌, max, ltb,
  if◌then◌else◌, arith, ap, ◌∙◌, Bool-cases, inl, inr, ◌++◌, replicate,
}
use c_programming.Atomics.{Exchange, compare_exchange}

-- What happens at one compare-exchange: other threads have raised the maximum to `others` just before,
-- and the weak operation may fail for no reason.
pub record Attempt : Type 0 where
  pub others : ℕ
  pub spurious : Bool

abbrev pub weak : Bool → ℕ → ℕ → ℕ → Exchange ℕ
weak spurious object expected desired =
    if spurious
    then record { object = object; expected = object; done = false }
    else compare_exchange object expected desired

-- The `while` with `cur` read, and the maximum afterwards. `none`: the loop goes on after the attempts
-- listed.
unfoldable pub raise_loop : List Attempt → ℕ → ℕ → ℕ → Option ℕ
unfolding compare_exchange
raise_loop [] object cur v = if ltb cur v then none else some object
raise_loop (a ∷ more) object cur v =
    let x : Exchange ℕ = weak a.spurious (max object a.others) cur v in
    let again = raise_loop more x.object x.expected v in
    if ltb cur v then (if x.done then some x.object else again) else some object

-- One round of the `for`, alone: each number of spurious failures, then an attempt that is none.
abbrev pub failure : Attempt
failure = record { others = 0; spurious = true }

abbrev pub quiet : Attempt
quiet = record { others = 0; spurious = false }

unfoldable pub raise_all : List (ℕ × ℕ) → ℕ → Option ℕ
unfolding raise_loop
raise_all [] maximum = some maximum
raise_all ((v, failures) ∷ rounds) maximum =
    elim (raise_loop (replicate failures failure ++ quiet ∷ []) maximum maximum v) [
      | none ↦ none
      | some maximum' ↦ raise_all rounds maximum'
    ]

abbrev pub largest : List (ℕ × ℕ) → ℕ → ℕ
largest [] m = m
largest ((v, failures) ∷ rounds) m = largest rounds (max m v)

seven_values :
    raise_all ((7, 0) ∷ (3, 0) ∷ (9, 2) ∷ (1, 0) ∷ (5, 1) ∷ (8, 0) ∷ (2, 0) ∷ []) 0 ≡ some 9
unfolding raise_all
seven_values = refl

one_round :
    (failures maximum v : ℕ)
    → raise_loop (replicate failures failure ++ quiet ∷ []) maximum maximum v ≡ some (max maximum v)
unfolding raise_loop compare_exchange
one_round zero maximum v = ground arith
one_round (suc failures) maximum v = elim (Bool-cases (ltb maximum v)) [
  | inl less ↦ rw less (
      ap (λ m. raise_loop (replicate failures failure ++ quiet ∷ []) m m v) (same maximum)
      ∙ one_round failures maximum v)
  | inr notless ↦ rw notless (ground arith)
]
  where
    same : (m : ℕ) → max m 0 ≡ m
    same m = omega arith

-- However often the weak exchange fails for no reason, the loop ends and leaves the largest of the
-- values and the first maximum.
pub raise_all-largest :
    (rounds : List (ℕ × ℕ)) (maximum : ℕ) → raise_all rounds maximum ≡ some (largest rounds maximum)
unfolding raise_all
raise_all-largest [] maximum = refl
raise_all-largest ((v, failures) ∷ rounds) maximum =
    rw (one_round failures maximum v, raise_all) (raise_all-largest rounds (max maximum v))

-- Whatever other threads do to the maximum in between, a call that returns has raised it: it is at
-- least the value, and at least what it was.
pub raise_loop-le :
    (attempts : List Attempt) (object cur v r : ℕ)
    → cur ≤ object
    → raise_loop attempts object cur v ≡ some r
    → (v ≤ r) × (object ≤ r)
unfolding raise_loop compare_exchange
raise_loop-le [] object cur v r h e = ground arith
raise_loop-le (a ∷ more) object cur v r h e =
    ground (arith, raise_loop-le more (max object a.others) (max object a.others) v r)
