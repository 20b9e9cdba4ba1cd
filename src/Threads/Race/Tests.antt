-- ===== src/Threads/Race/Tests.antt =====
-- Both threads have read 0, and the theorem on the race there.
use c_programming.Prelude.{◌+◌, ◌*◌, ◌≤◌, ◌≡◌, refl}
use c_programming.Interleave.{here, there, total}
use c_programming.Threads.Race.{load, store, System, turn, start, Reach, begin, later}
use c_programming.Threads.Race.Lost.{unwritten, pair, count-unsafe}

some_run : (s : System) × Reach (start 2 1) s × (s.g_unsafe ≡ 1)
some_run = (
  _,
  later (later (later begin (turn (load 0) (here _))) (turn (load 0) (there _ (here _))))
      (turn (store 0 0) (here _)),
  refl,
)

abbrev state : System
state = some_run.0

count-unsafe_example :
    (state.g_unsafe + total unwritten state.pcs ≤ 2 * 1) × Reach (start 2 1) (pair 1 0)
count-unsafe_example = count-unsafe 2 1 state (some_run.1)
