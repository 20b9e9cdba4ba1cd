-- ===== src/Threads/Conditions/Bound.antt =====
-- The steps of `section_condvar` of exercises/24_threads/threads.c, counted.
use c_programming.Prelude.{ℕ, ◌+◌, ◌-◌, ◌*◌, ◌≤◌, subst, Bool, false, if◌then◌else◌, not, arith}
use c_programming.Threads.{nitems, finish}
use c_programming.Threads.Ring.{pop_returned, end_returned}
use c_programming.Threads.Schedule.{IsSafe, Steps-IsSafe}
use c_programming.Threads.Conditions.{
  Scene, scene, Signal, nobody, wake1, wake2, Act, push, push_blocks, close, pop1, pop2,
  pop1_blocks, pop2_blocks, ends1, ends2, Spurious, spurious, spurious1, spurious2, Run, created,
  acts, wakes,
}
use c_programming.Threads.Conditions.Invariant.{Run-Steps, pushed_count, pushed_closed}

-- What a scene has still to do: four for a value to push, two for a value in the queue, three for the
-- close, one for a consumer to end, and one for each thread that is not blocked.
abbrev one_if : Bool → ℕ
one_if b = if b then 1 else 0

abbrev left_to_do : Scene → ℕ
left_to_do w =
    4 * (nitems - w.sys.next)
    + 2 * w.sys.bq.count
    + 3 * one_if (not w.sys.bq.closed)
    + one_if (not w.sys.cons1.ended)
    + one_if (not w.sys.cons2.ended)
    + (one_if (not w.blocked) + one_if (not w.blocked1) + one_if (not w.blocked2))

Signal-one :
    {c1 c2 d1 d2 : Bool}
    → Signal c1 c2 d1 d2
    → one_if (not d1) + one_if (not d2) ≤ one_if (not c1) + one_if (not c2) + 1
Signal-one nobody = ground arith
Signal-one (wake1 c2) = ground arith
Signal-one (wake2 c1) = ground arith

Act-left_to_do : {w x : Scene} → IsSafe w.sys → Act w x → left_to_do x + 1 ≤ left_to_do w
Act-left_to_do safe (push s c1 c2 d1 d2 size q lt e woken) =
    let counted = pushed_count s.bq q s.next size e in
    let same = pushed_closed s.bq q s.next size e in
    let few = Signal-one woken in rw same (omega (arith, counted, few))
Act-left_to_do safe (push_blocks s c1 c2 lt e) = ground arith
Act-left_to_do safe (close s c1 c2 all opened) = rw opened (ground arith)
Act-left_to_do safe (pop1 s p c2 val q on e) =
    let popped = pop_returned s.bq val q safe.ring e in
    rw popped.closed (ground (arith, popped.counted))
Act-left_to_do safe (pop2 s p c1 val q on e) =
    let popped = pop_returned s.bq val q safe.ring e in
    rw popped.closed (ground (arith, popped.counted))
Act-left_to_do safe (pop1_blocks s p c2 on e) = ground arith
Act-left_to_do safe (pop2_blocks s p c1 on e) = ground arith
Act-left_to_do safe (ends1 s p c2 q on e) =
    let (same, count, closed) = end_returned s.bq q e in
    subst
      (λ u.
        left_to_do (scene (record s { bq = u; cons1 = finish s.cons1 }) p false c2) + 1
        ≤ left_to_do (scene s p false c2))
      same (rw on (ground arith))
Act-left_to_do safe (ends2 s p c1 q on e) =
    let (same, count, closed) = end_returned s.bq q e in
    subst
      (λ u.
        left_to_do (scene (record s { bq = u; cons2 = finish s.cons2 }) p c1 false) + 1
        ≤ left_to_do (scene s p c1 false))
      same (rw on (ground arith))

Spurious-left_to_do : {w x : Scene} → Spurious w x → left_to_do x ≤ left_to_do w + 1
Spurious-left_to_do (spurious s c1 c2) = ground arith
Spurious-left_to_do (spurious1 s p c2) = ground arith
Spurious-left_to_do (spurious2 s p c1) = ground arith

pub Run-bound :
    (garbage : ℕ → ℕ) {n k : ℕ} {w : Scene} → Run garbage n k w → n + left_to_do w ≤ 88 + k
Run-bound garbage created = omega arith
Run-bound garbage (acts r a) =
    omega
      (arith, Run-bound garbage r, Act-left_to_do (Steps-IsSafe garbage (Run-Steps garbage r)) a)
Run-bound garbage (wakes r a) = omega (arith, Run-bound garbage r, Spurious-left_to_do a)
