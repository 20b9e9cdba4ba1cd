-- ===== src/Semaphores.antt =====
-- exercises/30_semaphores/semaphores.c: POSIX semaphores as counters, the pool of resources that they
-- guard, the handoff from a producer, and the deadline of a bounded wait.
pub mod Handoff
pub mod Pool
pub mod Deadline
mod Tests
use c_programming.Prelude.{
  ℕ, zero, suc, ◌+◌, ◌-◌, ◌≡◌, refl, Bool, true, false, Option, none, some, List, [], ◌∷◌, ◌++◌,
  if◌then◌else◌, ◌==◌,
}

-- A call of `sem_wait` returns with the new value, or blocks.
unfoldable pub sem_wait : ℕ → Option ℕ
sem_wait zero = none
sem_wait (suc v) = some v

abbrev pub sem_post : ℕ → ℕ
sem_post v = suc v

-- The new value, and whether the result is 0; it is -1 with EAGAIN otherwise.
unfoldable pub sem_trywait : ℕ → ℕ × Bool
sem_trywait zero = (zero, false)
sem_trywait (suc v) = (v, true)

-- `while (sem_trywait(&s) == 0) ;`, a round for each unit of the value and one more.
unfoldable pub drain : ℕ → ℕ → Option ℕ
unfolding sem_trywait
drain zero v = none
drain (suc fuel) v =
    let next = drain fuel (sem_trywait v).0 in if (sem_trywait v).1 then next else some v

-- What `section2_basics` prints, none where a wait would block for ever.
pub data Line : Type 0 where
  value : ℕ → Line
  acquired : Bool → Line

unfoldable pub section2_basics : Option (List Line)
unfolding sem_wait sem_trywait drain
section2_basics = elim (sem_wait 3) [
  | none ↦ none
  | some v ↦ elim (sem_wait v) [
    | none ↦ none
    | some w ↦
        let posted : ℕ = sem_post (sem_post (sem_post w)) in
        let (left, rc) = sem_trywait posted in
        elim (drain (left + 1) left) [
          | none ↦ none
          | some empty ↦
              some (
                value 3
                ∷ value v
                ∷ value posted
                ∷ acquired rc
                ∷ acquired (sem_trywait empty).1
                ∷ [])
        ]
  ]
]

-- The loop that drains a semaphore ends, at 0.
pub drain-zero : (v : ℕ) → drain (suc v) v ≡ some 0
unfolding drain sem_trywait
drain-zero zero = refl
drain-zero (suc v) = drain-zero v
