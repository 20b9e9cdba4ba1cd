-- ===== src/Atomics/Treiber/Tests.antt =====
-- A push and a pop that overlap, and the theorem on the lock-free stack there.
use c_programming.Prelude.{ℕ, ◌≡◌, refl, Option, none, [], ◌∷◌}
use c_programming.Interleave.{here, there}
use c_programming.Atomics.Treiber.{
  push, pop, load_push, link, push_done, push_again, load_pop, read, pop_done, System, turn, start,
  Reach, begin, later,
}

abbrev garbage : ℕ → Option ℕ
garbage _ = none

-- Node 7 is pushed before node 5, whose first exchange fails, and is popped again at last.
some_run : (s : System) × Reach (start garbage (5 ∷ 7 ∷ []) 1) s × (s.log ≡ pop 7 ∷ push 7 ∷ [])
some_run = (
  _,
  later
      (later
        (later
          (later
            (later
              (later
                (later
                  (later (later begin (turn (load_push 5) (here _))) (turn (link 5 none) (here _)))
                  (turn (load_push 7) (there _ (here _))))
                (turn (link 7 none) (there _ (here _))))
              (turn (push_done 7 none refl) (there _ (here _))))
            (turn (push_again 5 none) (here _)))
          (turn (load_pop 7 refl) (there _ (there _ (here _)))))
        (turn (read 7) (there _ (there _ (here _)))))
      (turn (pop_done 7 none refl) (there _ (there _ (here _)))),
  refl,
)

abbrev state : System
state = some_run.0
