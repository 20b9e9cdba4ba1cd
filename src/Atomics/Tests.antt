-- ===== src/Atomics/Tests.antt =====
-- The theorems on the atomic objects at small systems.
use c_programming.Prelude.{◌+◌, ◌*◌, ◌≤◌, ◌≡◌, refl, ◌⊎◌, arith}
use c_programming.Interleave.{here, there, total}
use c_programming.Threads.Guarded
use c_programming.Threads.Guarded.{inside, unwritten}
use c_programming.Threads.Guarded.Exact.{Ended}
use c_programming.Atomics.Counter
use c_programming.Atomics.Counter.{rounds, steps, atomic-exact}
use c_programming.Atomics.Spin
use c_programming.Atomics.Spin.Refine.{view, Reach-Guarded}

added_once : (s : Counter.System) × Counter.Reach 2 1 s
added_once = (_, Counter.later Counter.begin (Counter.turn (Counter.add 0) (here _)))

abbrev counted : Counter.System
counted = added_once.0

atomic-exact_example :
    (counted.g_safe + total rounds counted.pcs ≡ 2 * 1)
    × (steps (added_once.1) + total rounds counted.pcs ≡ 2 * 1)
    × ((total rounds counted.pcs ≡ 0) ⊎ ((t : Counter.System) × Counter.Step counted t))
atomic-exact_example = atomic-exact 2 1 counted (omega arith) (added_once.1)

-- The first thread has the lock, and the second spins once.
spun_once : (s : Spin.System) × Spin.Reach 2 1 s
unfolding Spin.test_and_set
spun_once = (
  _,
  Spin.later (Spin.later Spin.begin (Spin.turn (Spin.enter 0 refl) (here _)))
      (Spin.turn (Spin.spin 0 refl) (there _ (here _))),
)

abbrev spinning : Spin.System
spinning = spun_once.0

Reach-Guarded_example :
    Guarded.Reach 2 1 (view spinning)
    × (total inside spinning.pcs ≤ 1)
    × (spinning.mem.spin_count + total unwritten spinning.pcs ≡ 2 * 1)
    × (Ended spinning.pcs
        ⊎ ((t : Spin.System) × Spin.Step spinning t × Guarded.Step (view spinning) (view t)))
Reach-Guarded_example = Reach-Guarded 2 1 spinning (spun_once.1)
