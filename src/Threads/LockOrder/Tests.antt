-- ===== src/Threads/LockOrder/Tests.antt =====
-- The first of two threads has both locks, and the theorem on the order of locks there.
use c_programming.Prelude.{◌+◌, ◌*◌, ◌≤◌, ◌≡◌, refl, ◌⊎◌}
use c_programming.Interleave.{here, total}
use c_programming.Threads.LockOrder.{
  get_a, get_b, System, Step, turn, Reach, begin, later, holds_a, holds_b, calls_left,
}
use c_programming.Threads.LockOrder.Progress.{steps, safe_order-ends}

some_run : (s : System) × Reach 2 s
some_run = (_, later (later begin (turn (get_a refl) (here _))) (turn (get_b refl) (here _)))

abbrev state : System
state = some_run.0

safe_order-ends_example :
    (total holds_a state.pcs ≤ 1)
    × (total holds_b state.pcs ≤ 1)
    × (steps (some_run.1) + total calls_left state.pcs ≡ 2 * 5)
    × ((total calls_left state.pcs ≡ 0) ⊎ ((t : System) × Step state t))
safe_order-ends_example = safe_order-ends 2 state (some_run.1)
