-- ===== src/Threads/Conditions/Invariant.antt =====
-- What holds of the blocked threads of `section_condvar` of exercises/24_threads/threads.c.
use c_programming.Prelude.{ℕ, ◌+◌, ◌<◌, ◌≡◌, refl, sym, ap, ◌∙◌, Bool, true, false, ◌&&◌, arith}
use c_programming.Threads.{
  BQueue, waits, returns, qcap, bq_push, bq_pop, start, Steps, stay, step, produce, shut, take1,
  take2, end1, end2,
}
use c_programming.Threads.Ring.{pop_returned, end_returned}
use c_programming.Threads.Schedule.{IsSafe, Steps-IsSafe}
use c_programming.Threads.Conditions.{
  Scene, Signal, nobody, wake1, wake2, Act, push, push_blocks, close, pop1, pop2, pop1_blocks,
  pop2_blocks, ends1, ends2, Spurious, spurious, spurious1, spurious2, Run, created, acts, wakes,
}

-- The calls that return are steps of the queue without its condition variables.
pub Run-Steps :
    (garbage : ℕ → ℕ) {n k : ℕ} {w : Scene} → Run garbage n k w → Steps (start garbage) w.sys
Run-Steps garbage created = stay (start garbage)
Run-Steps garbage (acts r (push s c1 c2 d1 d2 size q lt e _)) =
    step (Run-Steps garbage r) (produce s size q lt e)
Run-Steps garbage (acts r (push_blocks s c1 c2 lt e)) = Run-Steps garbage r
Run-Steps garbage (acts r (close s c1 c2 all opened)) =
    step (Run-Steps garbage r) (shut s all opened)
Run-Steps garbage (acts r (pop1 s p c2 val q on e)) =
    step (Run-Steps garbage r) (take1 s val q on e)
Run-Steps garbage (acts r (pop2 s p c1 val q on e)) =
    step (Run-Steps garbage r) (take2 s val q on e)
Run-Steps garbage (acts r (pop1_blocks s p c2 on e)) = Run-Steps garbage r
Run-Steps garbage (acts r (pop2_blocks s p c1 on e)) = Run-Steps garbage r
Run-Steps garbage (acts r (ends1 s p c2 q on e)) = step (Run-Steps garbage r) (end1 s q on e)
Run-Steps garbage (acts r (ends2 s p c1 q on e)) = step (Run-Steps garbage r) (end2 s q on e)
Run-Steps garbage (wakes r (spurious s c1 c2)) = Run-Steps garbage r
Run-Steps garbage (wakes r (spurious1 s p c2)) = Run-Steps garbage r
Run-Steps garbage (wakes r (spurious2 s p c1)) = Run-Steps garbage r

-- The values that the queue functions leave.
pub pushed_count :
    (q q' : BQueue) (v size : ℕ) → bq_push q v ≡ returns size q' → q'.count ≡ q.count + 1
unfolding bq_push
pushed_count q q' v size e = ground (arith, e)

push_waits : (q : BQueue) (v : ℕ) → bq_push q v ≡ waits → q.count ≡ qcap
unfolding bq_push
push_waits q v e = ground (arith, e)

pub pushed_closed :
    (q q' : BQueue) (v size : ℕ) → bq_push q v ≡ returns size q' → q'.closed ≡ q.closed
unfolding bq_push
pushed_closed q q' v size e = ground (arith, e)

pop_waits : (q : BQueue) → bq_pop q ≡ waits → (q.count ≡ 0) × (q.closed ≡ false)
unfolding bq_pop
pop_waits q e = (ground (arith, e), ground (arith, e))

-- Where a consumer is blocked, the others make up for it.
pub record IsAwake (w : Scene) : Type 0 where
  pub full : w.blocked ≡ true → w.sys.bq.count ≡ qcap
  pub some_awake : 0 < w.sys.bq.count → w.blocked1 && w.blocked2 ≡ false
  pub all_awake : w.sys.bq.closed ≡ true → (w.blocked1 ≡ false) × (w.blocked2 ≡ false)

-- A signal leaves a consumer that is not blocked.
Signal-awake :
    {c1 c2 d1 d2 : Bool}
    → Signal c1 c2 d1 d2
    → (d1 && d2 ≡ false) × ((c1 ≡ false) × (c2 ≡ false) → (d1 ≡ false) × (d2 ≡ false))
Signal-awake nobody = (refl, λ e. e)
Signal-awake (wake1 c2) = (refl, λ (e, f). (refl, f))
Signal-awake (wake2 c1) = (ground arith, λ (e, f). (e, refl))

Act-IsAwake : {w x : Scene} → IsSafe w.sys → IsAwake w → Act w x → IsAwake x
Act-IsAwake safe i (push s c1 c2 d1 d2 size q lt e woken) =
    let (one, both) = Signal-awake woken in
    record {
      full = λ b. absurd (ground arith);
      some_awake = λ _. one;
      all_awake = λ c. both (i.all_awake (sym (pushed_closed s.bq q s.next size e) ∙ c));
    }
Act-IsAwake safe i (push_blocks s c1 c2 lt e) = record {
  full = λ _. push_waits s.bq s.next e;
  some_awake = i.some_awake;
  all_awake = i.all_awake;
}
Act-IsAwake safe i (close s c1 c2 all opened) = record {
  full = λ b. absurd (ground arith);
  some_awake = λ _. refl;
  all_awake = λ _. (refl, refl);
}
Act-IsAwake safe i (pop1 s p c2 val q on e) =
    let popped = pop_returned s.bq val q safe.ring e in
    record {
      full = λ b. absurd (ground arith);
      some_awake = λ _. refl;
      all_awake = λ c. i.all_awake (sym popped.closed ∙ c);
    }
Act-IsAwake safe i (pop2 s p c1 val q on e) =
    let popped = pop_returned s.bq val q safe.ring e in
    record {
      full = λ b. absurd (ground arith);
      some_awake = λ _. ground arith;
      all_awake = λ c. i.all_awake (sym popped.closed ∙ c);
    }
Act-IsAwake safe i (pop1_blocks s p c2 on e) =
    let (none_left, opened) = pop_waits s.bq e in
    record {
      full = i.full;
      some_awake = λ more. absurd (omega (arith, none_left));
      all_awake = λ c. absurd (ground (arith, opened));
    }
Act-IsAwake safe i (pop2_blocks s p c1 on e) =
    let (none_left, opened) = pop_waits s.bq e in
    record {
      full = i.full;
      some_awake = λ more. absurd (omega (arith, none_left));
      all_awake = λ c. absurd (ground (arith, opened));
    }
Act-IsAwake safe i (ends1 s p c2 q on e) =
    let (same, count, closed) = end_returned s.bq q e in
    record {
      full = λ b. ap (λ u. u.count) (sym same) ∙ i.full b;
      some_awake = λ _. refl;
      all_awake = λ _. i.all_awake closed;
    }
Act-IsAwake safe i (ends2 s p c1 q on e) =
    let (same, count, closed) = end_returned s.bq q e in
    record {
      full = λ b. ap (λ u. u.count) (sym same) ∙ i.full b;
      some_awake = λ _. ground arith;
      all_awake = λ _. i.all_awake closed;
    }

Spurious-IsAwake : {w x : Scene} → IsAwake w → Spurious w x → IsAwake x
Spurious-IsAwake i (spurious s c1 c2) = record {
  full = λ b. absurd (ground arith);
  some_awake = i.some_awake;
  all_awake = i.all_awake;
}
Spurious-IsAwake i (spurious1 s p c2) = record {
  full = i.full;
  some_awake = λ _. refl;
  all_awake = λ c. (refl, (i.all_awake c).1);
}
Spurious-IsAwake i (spurious2 s p c1) = record {
  full = i.full;
  some_awake = λ _. ground arith;
  all_awake = λ c. ((i.all_awake c).0, refl);
}

pub Run-IsAwake : (garbage : ℕ → ℕ) {n k : ℕ} {w : Scene} → Run garbage n k w → IsAwake w
Run-IsAwake garbage created = record {
  full = λ b. absurd (ground arith);
  some_awake = λ _. refl;
  all_awake = λ _. (refl, refl);
}
Run-IsAwake garbage (acts r a) =
    Act-IsAwake (Steps-IsSafe garbage (Run-Steps garbage r)) (Run-IsAwake garbage r) a
Run-IsAwake garbage (wakes r a) = Spurious-IsAwake (Run-IsAwake garbage r) a
