-- ===== src/Threads/Conditions/Tests.antt =====
-- A schedule in which a consumer is blocked and woken, and the theorem there.
use c_programming.Prelude.{ℕ, ◌≤◌, ◌≡◌, refl, true, false, ◌⊎◌, arith}
use c_programming.Threads.{put_at, bq_push, bq_pop}
use c_programming.Threads.Conditions.{
  Scene, wake1, Act, push, pop1_blocks, pop2_blocks, pop1, Run, created, acts,
}
use c_programming.Threads.Conditions.Awake.{Run-goes_on}

abbrev zeros : ℕ → ℕ
zeros _ = 0

-- Both consumers find the queue empty; a push wakes the first, which takes the value, while the second
-- stays blocked.
woken : (w : Scene) × Run zeros 4 0 w × (w.blocked1 ≡ false) × (w.blocked2 ≡ true)
unfolding bq_push bq_pop put_at
woken = (
  _,
  acts
      (acts
        (acts (acts created (pop1_blocks _ false false refl refl))
          (pop2_blocks _ false true refl refl))
        (push _ true true false true _ _ (omega arith) refl (wake1 true)))
      (pop1 _ false true _ _ refl refl),
  refl,
  refl,
)

abbrev woken_scene : Scene
woken_scene = woken.0

Run-goes_on_example :
    (4 ≤ 88)
    × (((woken_scene.sys.bq.closed ≡ true)
          × (woken_scene.sys.cons1.ended ≡ true)
          × (woken_scene.sys.cons2.ended ≡ true))
        ⊎ ((x : Scene) × Act woken_scene x))
Run-goes_on_example = Run-goes_on zeros 4 0 woken_scene (woken.1)
