-- ===== src/Threads/Tests.antt =====
-- A schedule of a few steps, and the theorem on the queue at that schedule.
use c_programming.Prelude.{
  ℕ, ◌+◌, ◌≤◌, ◌≡◌, refl, [], ◌∷◌, ◌++◌, ◌||◌, if◌then◌else◌, arith, length,
}
use c_programming.Threads.{
  nitems, put_at, bq_push, bq_pop, System, start, produce, take2, Steps, stay, step,
}
use c_programming.Threads.Ring.{contents}
use c_programming.Threads.Schedule.{upto, total, taken-upto}

abbrev zeros : ℕ → ℕ
zeros _ = 0

-- Two values are produced, and the second consumer takes the first.
some_run : (s : System) × Steps (start zeros) s × (s.taken ≡ 0 ∷ []) × (s.bq.count ≡ 1)
unfolding bq_push bq_pop put_at
some_run = (
  _,
  step
      (step (step (stay (start zeros)) (produce _ _ _ (omega arith) refl))
        (produce _ _ _ (omega arith) refl))
      (take2 _ _ _ refl refl),
  refl,
  refl,
)

abbrev state : System
state = some_run.0

taken-upto_example :
    (state.taken ++ contents state.bq ≡ upto state.next)
    × (state.cons1.sum + state.cons2.sum ≡ total state.taken)
    × (state.cons1.n + state.cons2.n ≡ length state.taken)
    × (if state.cons1.ended || state.cons2.ended
        then state.taken ≡ upto nitems
        else state.next ≤ nitems)
taken-upto_example = taken-upto zeros state (some_run.1)
