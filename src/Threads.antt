-- ===== src/Threads.antt =====
-- The bounded queue of exercises/24_threads/threads.c, and the threads of `section_condvar` that
-- share it. Each function on the queue holds its mutex from its first to its last statement, so it is
-- one step; a call that would wait on a condition variable does not return. Threads.Conditions puts
-- the waits and the signals of these functions around them.
pub mod Ring
pub mod Schedule
pub mod Conditions
pub mod Guarded
pub mod Race
pub mod LockOrder
pub mod Workers
mod Tests
use c_programming.Prelude.{
  ℕ, zero, suc, ◌+◌, ◌-◌, ◌%◌, ◌<◌, ◌≡◌, Bool, true, false, Option, none, some, List, [], ◌∷◌, ◌++◌,
  if◌then◌else◌, ◌==◌, ◌&&◌, not,
}

abbrev pub qcap : ℕ
qcap = 8

abbrev pub nitems : ℕ
nitems = 20

-- `BQueue` without its mutex and condition variables. The values that are passed are not negative.
pub record BQueue : Type 0 where
  pub data_at : ℕ → ℕ
  pub head : ℕ
  pub tail : ℕ
  pub count : ℕ
  pub closed : Bool

-- A call waits until another thread signals and the condition holds, or returns.
pub data Outcome (A : Type 0) : Type 0 where
  waits : Outcome A
  returns : A → BQueue → Outcome A

unfoldable pub put_at : (ℕ → ℕ) → ℕ → ℕ → ℕ → ℕ
put_at d i v j = if j == i then v else d j

-- The size that is returned is the one under the mutex.
unfoldable pub bq_push : BQueue → ℕ → Outcome ℕ
bq_push q val =
    if q.count == qcap
    then waits
    else returns (q.count + 1) (record q {
      data_at = put_at q.data_at q.tail val;
      tail = (q.tail + 1) % qcap;
      count = q.count + 1;
    })

-- `none`: 0 is returned, the queue is closed and empty.
unfoldable pub bq_pop : BQueue → Outcome (Option ℕ)
bq_pop q =
    if (q.count == 0) && not q.closed
    then waits
    else if q.count == 0
    then returns none q
    else returns (some (q.data_at q.head))
        (record q { head = (q.head + 1) % qcap; count = q.count - 1 })

abbrev pub bq_close : BQueue → BQueue
bq_close q = record q { closed = true }

-- The variables of a call of `consumer`, and whether its loop has ended.
pub record Consumer : Type 0 where
  pub sum : ℕ
  pub n : ℕ
  pub ended : Bool

abbrev pub consume : ℕ → Consumer → Consumer
consume val c = record c { sum = c.sum + val; n = c.n + 1 }

abbrev pub finish : Consumer → Consumer
finish c = record c { ended = true }

-- The queue, the variable `i` of `producer`, the two consumers, and the values in the order in which
-- they have left the queue.
pub record System : Type 0 where
  pub bq : BQueue
  pub next : ℕ
  pub cons1 : Consumer
  pub cons2 : Consumer
  pub taken : List ℕ

-- `section_condvar` before it creates the threads.
abbrev pub new_consumer : Consumer
new_consumer = record { sum = 0; n = 0; ended = false }

abbrev pub start : (ℕ → ℕ) → System
start garbage = record {
  bq = record { data_at = garbage; head = 0; tail = 0; count = 0; closed = false };
  next = 0;
  cons1 = new_consumer;
  cons2 = new_consumer;
  taken = [];
}

-- One call of a queue function by one of the threads; the scheduler chooses which.
pub data Step : System → System → Type 0 where
  produce :
      (s : System) (size : ℕ) (q : BQueue)
      → s.next < nitems
      → bq_push s.bq s.next ≡ returns size q
      → Step s (record s { bq = q; next = s.next + 1 })
  shut :
      (s : System)
      → s.next ≡ nitems
      → s.bq.closed ≡ false
      → Step s (record s { bq = bq_close s.bq })
  take1 :
      (s : System) (val : ℕ) (q : BQueue)
      → s.cons1.ended ≡ false
      → bq_pop s.bq ≡ returns (some val) q
      → Step s (record s { bq = q; cons1 = consume val s.cons1; taken = s.taken ++ val ∷ [] })
  take2 :
      (s : System) (val : ℕ) (q : BQueue)
      → s.cons2.ended ≡ false
      → bq_pop s.bq ≡ returns (some val) q
      → Step s (record s { bq = q; cons2 = consume val s.cons2; taken = s.taken ++ val ∷ [] })
  end1 :
      (s : System) (q : BQueue)
      → s.cons1.ended ≡ false
      → bq_pop s.bq ≡ returns none q
      → Step s (record s { bq = q; cons1 = finish s.cons1 })
  end2 :
      (s : System) (q : BQueue)
      → s.cons2.ended ≡ false
      → bq_pop s.bq ≡ returns none q
      → Step s (record s { bq = q; cons2 = finish s.cons2 })

-- Any number of steps.
pub data Steps : System → System → Type 0 where
  stay : (s : System) → Steps s s
  step : {s t u : System} → Steps s t → Step t u → Steps s u
