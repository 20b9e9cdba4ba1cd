-- ===== src/Semaphores/Tests.antt =====
-- The theorems on the semaphores at small systems.
use c_programming.Prelude.{◌+◌, ◌*◌, ◌≡◌, true, false, refl, some, [], ◌∷◌, ◌⊎◌, arith}
use c_programming.Interleave.{here, total}
use c_programming.Semaphores.{sem_wait, value, acquired, section2_basics}
use c_programming.Semaphores.Deadline.{Timespec}
use c_programming.Semaphores.Handoff
use c_programming.Semaphores.Handoff.{HasNotPrinted, printed, handoff-printed}
use c_programming.Semaphores.Pool
use c_programming.Semaphores.Pool.{holds, calls_left, steps, pool-bounded}

first_waits : (s : Pool.System) × Pool.Reach 6 3 s
unfolding sem_wait
first_waits = (_, Pool.later Pool.begin (Pool.turn (Pool.wait 2 refl) (here _)))

abbrev waiting : Pool.System
waiting = first_waits.0

pool-bounded_example :
    (waiting.pool + total holds waiting.pcs ≡ 3)
    × (steps (first_waits.1) + total calls_left waiting.pcs ≡ 6 * 4)
    × ((total calls_left waiting.pcs ≡ 0) ⊎ ((t : Pool.System) × Pool.Step waiting t))
pool-bounded_example = pool-bounded 6 3 waiting (omega arith) (first_waits.1)

wrote_first : (s : Handoff.System) × Handoff.Reach s
wrote_first = (_, Handoff.later Handoff.begin (Handoff.write Handoff.start refl))

abbrev late : Timespec
late = record { tv_sec = 7; tv_nsec = 950000000 }

section2_printed :
    section2_basics ≡ some (value 3 ∷ value 2 ∷ value 4 ∷ acquired true ∷ acquired false ∷ [])
unfolding section2_basics
section2_printed = refl
