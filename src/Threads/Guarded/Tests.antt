-- ===== src/Threads/Guarded/Tests.antt =====
-- Two threads with one round each, and the theorem on the mutex there.
use c_programming.Prelude.{◌+◌, ◌*◌, ◌≤◌, ◌≡◌, refl, ◌⊎◌}
use c_programming.Interleave.{here, there, total}
use c_programming.Threads.Guarded.{
  lock, load, store, System, Step, turn, Reach, begin, later, inside, unwritten,
}
use c_programming.Threads.Guarded.Exact.{Ended, guarded-exact}

-- The second thread has the mutex and has just written.
some_run : (s : System) × Reach 2 1 s × (s.mem.count ≡ 1)
some_run = (
  _,
  later
      (later (later begin (turn (lock 0 refl) (there _ (here _))))
        (turn (load 0) (there _ (here _))))
      (turn (store 0 0) (there _ (here _))),
  refl,
)

abbrev state : System
state = some_run.0

guarded-exact_example :
    (total inside state.pcs ≤ 1)
    × (state.mem.count + total unwritten state.pcs ≡ 2 * 1)
    × (Ended state.pcs ⊎ ((t : System) × Step state t))
guarded-exact_example = guarded-exact 2 1 state (some_run.1)
