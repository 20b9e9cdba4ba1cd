-- ===== src/Threads/Conditions.antt =====
-- `section_condvar` of exercises/24_threads/threads.c with its condition variables. A call of a queue
-- function that finds its condition false is blocked in pthread_cond_wait, and goes on only after a
-- signal, or a spurious wake-up; then it tests the condition again from the start.
mod Invariant
mod Bound
pub mod Awake
mod Tests
use c_programming.Prelude.{ℕ, ◌+◌, ◌<◌, ◌≡◌, Bool, true, false, some, none, ◌++◌, [], ◌∷◌}
use c_programming.Threads.{
  BQueue, waits, returns, nitems, bq_push, bq_pop, bq_close, consume, finish, System, start,
}

-- The threads of the section, and which of them are blocked: the producer on not_full, the consumers
-- on not_empty.
pub record Scene : Type 0 where
  pub sys : System
  pub blocked : Bool
  pub blocked1 : Bool
  pub blocked2 : Bool

abbrev pub scene : System → Bool → Bool → Bool → Scene
scene s p c1 c2 = record { sys = s; blocked = p; blocked1 = c1; blocked2 = c2 }

-- `pthread_cond_signal(&q->not_empty)`: one of the consumers that are blocked goes on, if there is any.
pub data Signal : Bool → Bool → Bool → Bool → Type 0 where
  nobody : Signal false false false false
  wake1 : (c2 : Bool) → Signal true c2 false c2
  wake2 : (c1 : Bool) → Signal c1 true c1 false

-- A step of a thread that is not blocked: a call, from its lock or from where pthread_cond_wait
-- returns, until it unlocks or is blocked.
pub data Act : Scene → Scene → Type 0 where
  push :
      (s : System) (c1 c2 d1 d2 : Bool) (size : ℕ) (q : BQueue)
      → s.next < nitems
      → bq_push s.bq s.next ≡ returns size q
      → Signal c1 c2 d1 d2
      → Act (scene s false c1 c2) (scene (record s { bq = q; next = s.next + 1 }) false d1 d2)
  push_blocks :
      (s : System) (c1 c2 : Bool)
      → s.next < nitems
      → bq_push s.bq s.next ≡ waits
      → Act (scene s false c1 c2) (scene s true c1 c2)
  close :  -- the broadcast wakes all consumers
      (s : System) (c1 c2 : Bool)
      → s.next ≡ nitems
      → s.bq.closed ≡ false
      → Act (scene s false c1 c2) (scene (record s { bq = bq_close s.bq }) false false false)
  pop1 :  -- the signal on not_full wakes the producer, if it is blocked
      (s : System) (p c2 : Bool) (val : ℕ) (q : BQueue)
      → s.cons1.ended ≡ false
      → bq_pop s.bq ≡ returns (some val) q
      → Act (scene s p false c2) (
          scene
            (record s { bq = q; cons1 = consume val s.cons1; taken = s.taken ++ val ∷ [] })
            false
            false
            c2)
  pop2 :
      (s : System) (p c1 : Bool) (val : ℕ) (q : BQueue)
      → s.cons2.ended ≡ false
      → bq_pop s.bq ≡ returns (some val) q
      → Act (scene s p c1 false) (
          scene
            (record s { bq = q; cons2 = consume val s.cons2; taken = s.taken ++ val ∷ [] })
            false
            c1
            false)
  pop1_blocks :
      (s : System) (p c2 : Bool)
      → s.cons1.ended ≡ false
      → bq_pop s.bq ≡ waits
      → Act (scene s p false c2) (scene s p true c2)
  pop2_blocks :
      (s : System) (p c1 : Bool)
      → s.cons2.ended ≡ false
      → bq_pop s.bq ≡ waits
      → Act (scene s p c1 false) (scene s p c1 true)
  ends1 :
      (s : System) (p c2 : Bool) (q : BQueue)
      → s.cons1.ended ≡ false
      → bq_pop s.bq ≡ returns none q
      → Act (scene s p false c2) (scene (record s { bq = q; cons1 = finish s.cons1 }) p false c2)
  ends2 :
      (s : System) (p c1 : Bool) (q : BQueue)
      → s.cons2.ended ≡ false
      → bq_pop s.bq ≡ returns none q
      → Act (scene s p c1 false) (scene (record s { bq = q; cons2 = finish s.cons2 }) p c1 false)

-- pthread_cond_wait returns without a signal.
pub data Spurious : Scene → Scene → Type 0 where
  spurious : (s : System) (c1 c2 : Bool) → Spurious (scene s true c1 c2) (scene s false c1 c2)
  spurious1 : (s : System) (p c2 : Bool) → Spurious (scene s p true c2) (scene s p false c2)
  spurious2 : (s : System) (p c1 : Bool) → Spurious (scene s p c1 true) (scene s p c1 false)

-- The runs of the section, with `n` steps and `k` spurious wake-ups.
pub data Run (garbage : ℕ → ℕ) : ℕ → ℕ → Scene → Type 0 where
  created : Run garbage 0 0 (scene (start garbage) false false false)
  acts : {n k : ℕ} {w x : Scene} → Run garbage n k w → Act w x → Run garbage (n + 1) k x
  wakes : {n k : ℕ} {w x : Scene} → Run garbage n k w → Spurious w x → Run garbage n (k + 1) x
