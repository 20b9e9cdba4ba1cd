-- ===== src/Threads/Workers.antt =====
-- `worker` and `section_basics` of exercises/24_threads/threads.c. The numbers passed are not
-- negative; whether an allocation succeeds is an argument.
use c_programming.Prelude.{
  ℕ, zero, suc, ◌+◌, ◌*◌, ◌≡◌, refl, Bool, true, false, Option, none, some, List, [], ◌∷◌, arith,
  if◌then◌else◌,
}

pub record WorkArgs : Type 0 where
  pub id : ℕ
  pub n : ℕ

pub record WorkResult : Type 0 where
  pub id : ℕ
  pub sum : ℕ

-- `for (int i = 1; i <= a->n; i++) sum += i;` with the rounds that are left.
unfoldable pub sum_from : ℕ → ℕ → ℕ → ℕ
sum_from zero i sum = sum
sum_from (suc rounds) i sum = sum_from rounds (i + 1) (sum + i)

-- `none` where the result cannot be allocated.
unfoldable pub worker : Bool → WorkArgs → Option WorkResult
unfolding sum_from
worker allocated a = if allocated then some (record { id = a.id; sum = sum_from a.n 1 0 }) else none

pub data Line : Type 0 where
  failed : (thread : ℕ) → Line
  summed : (id n sum : ℕ) → Line

-- The line printed for thread `i`, from what it returned.
unfoldable pub report : ℕ → Option WorkResult → Line
report i none = failed i
report i (some res) = summed res.id ((res.id + 1) * 10) res.sum

-- The loops of `section_basics`, thread `i` of `nthreads` first: `malloc` says which of the threads
-- gets memory for its result.
unfoldable pub join_all : ℕ → ℕ → (ℕ → Bool) → List Line
unfolding worker report
join_all zero i malloc = []
join_all (suc more) i malloc =
    report i (worker (malloc i) (record { id = i; n = (i + 1) * 10 }))
    ∷ join_all more (i + 1) malloc

sum_from_lem :
    (rounds i sum : ℕ) → 2 * sum_from rounds i sum + rounds ≡ 2 * sum + rounds * (2 * i + rounds)
unfolding sum_from
sum_from_lem zero i sum = omega arith
sum_from_lem (suc rounds) i sum = grind (arith, sum_from_lem rounds (i + 1) (sum + i))

-- A worker that gets memory for its result returns its own id and the sum 1 + ... + n, in closed form;
-- one that does not returns no result.
pub worker-sum :
    (allocated : Bool) (a : WorkArgs)
    → if allocated
      then ((r : WorkResult) × (worker allocated a ≡ some r)
          × (r.id ≡ a.id)
          × (2 * r.sum ≡ a.n * (a.n + 1)))
      else worker allocated a ≡ none
unfolding worker
worker-sum true a = (_, refl, refl, grind (arith, sum_from_lem a.n 1 0))
worker-sum false a = refl

four_workers :
    join_all 4 0 (λ _. true)
    ≡ summed 0 10 55 ∷ summed 1 20 210 ∷ summed 2 30 465 ∷ summed 3 40 820 ∷ []
unfolding join_all
four_workers = refl
