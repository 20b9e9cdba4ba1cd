-- ===== src/Semaphores/Handoff.antt =====
-- `producer_thread` and `section3_signal` of exercises/30_semaphores/semaphores.c: a value handed over
-- through a semaphore that starts at 0.
use c_programming.Prelude.{ℕ, zero, suc, ◌≡◌, refl, ap, some, arith, ◌⊎◌, inl, inr}
use c_programming.Semaphores.{sem_wait, sem_post}

pub data Producer : Type 0 where
  working : Producer
  written : Producer  -- `g_value` is set
  posted : Producer

pub data Consumer : Type 0 where
  waiting : Consumer
  woken : Consumer  -- after `sem_wait`
  printed : (value : ℕ) → Consumer

pub record System : Type 0 where
  pub g_ready : ℕ
  pub g_value : ℕ
  pub producer : Producer
  pub consumer : Consumer

pub data Step : System → System → Type 0 where
  write :
      (s : System) → s.producer ≡ working → Step s (record s { g_value = 99; producer = written })
  post :
      (s : System)
      → s.producer ≡ written
      → Step s (record s { g_ready = sem_post s.g_ready; producer = posted })
  wake :
      (s : System) (v : ℕ)
      → s.consumer ≡ waiting
      → sem_wait s.g_ready ≡ some v
      → Step s (record s { g_ready = v; consumer = woken })
  print : (s : System) → s.consumer ≡ woken → Step s (record s { consumer = printed s.g_value })

abbrev pub start : System
start = record { g_ready = 0; g_value = 0; producer = working; consumer = waiting }

pub data Reach : System → Type 0 where
  begin : Reach start
  later : {s t : System} → Reach s → Step s t → Reach t

-- The values that the two threads can stand at together.
abbrev IsHandoff : ℕ → ℕ → Producer → Consumer → Type 0
IsHandoff ready value working waiting = (ready ≡ 0) × (value ≡ 0)
IsHandoff ready value written waiting = (ready ≡ 0) × (value ≡ 99)
IsHandoff ready value posted waiting = (ready ≡ 1) × (value ≡ 99)
IsHandoff ready value posted woken = (ready ≡ 0) × (value ≡ 99)
IsHandoff ready value posted (printed v) = (ready ≡ 0) × (v ≡ 99)
IsHandoff ready value p c = ⊥

abbrev Holds : System → Type 0
Holds s = IsHandoff s.g_ready s.g_value s.producer s.consumer

-- The parts of a state, one after the other, so that each step is a split on the threads.
module _ (r v : ℕ) where
  wrote : (p : Producer) (c : Consumer) → p ≡ working → IsHandoff r v p c → IsHandoff r 99 written c
  wrote working waiting e h = (h.0, refl)
  wrote working woken e h = absurd h
  wrote working (printed w) e h = absurd h
  wrote written c e h = absurd (ground arith)
  wrote posted c e h = absurd (ground arith)

  gave :
      (p : Producer) (c : Consumer)
      → p ≡ written
      → IsHandoff r v p c
      → IsHandoff (sem_post r) v posted c
  gave written waiting e h = (ap suc h.0, h.1)
  gave written woken e h = absurd h
  gave written (printed w) e h = absurd h
  gave working c e h = absurd (ground arith)
  gave posted c e h = absurd (ground arith)

  woke :
      (w : ℕ) (p : Producer) (c : Consumer)
      → c ≡ waiting
      → sem_wait r ≡ some w
      → IsHandoff r v p c
      → IsHandoff w v p woken
  unfolding sem_wait
  woke w working waiting e got h = absurd (ground (arith, h.0))
  woke w written waiting e got h = absurd (ground (arith, h.0))
  woke w posted waiting e got h = (left r got h.0, h.1)
    where
      left : (r : ℕ) → sem_wait r ≡ some w → r ≡ 1 → w ≡ 0
      left zero e f = absurd (ground arith)
      left (suc k) e f = ground arith
  woke w p woken e got h = absurd (ground arith)
  woke w p (printed k) e got h = absurd (ground arith)

  showed :
      (p : Producer) (c : Consumer) → c ≡ woken → IsHandoff r v p c → IsHandoff r v p (printed v)
  showed working woken e h = absurd h
  showed written woken e h = absurd h
  showed posted woken e h = h
  showed p waiting e h = absurd (ground arith)
  showed p (printed k) e h = absurd (ground arith)

Step-Holds : {s t : System} → Step s t → Holds s → Holds t
Step-Holds (write s e) h = wrote s.g_ready s.g_value s.producer s.consumer e h
Step-Holds (post s e) h = gave s.g_ready s.g_value s.producer s.consumer e h
Step-Holds (wake s v e got) h = woke s.g_ready s.g_value v s.producer s.consumer e got h
Step-Holds (print s e) h = showed s.g_ready s.g_value s.producer s.consumer e h

Reach-Holds : {s : System} → Reach s → Holds s
Reach-Holds begin = (refl, refl)
Reach-Holds (later r st) = Step-Holds st (Reach-Holds r)

abbrev pub HasNotPrinted : Consumer → Type 0
HasNotPrinted (printed v) = ⊥
HasNotPrinted waiting = Unit
HasNotPrinted woken = Unit

next_step :
    (r v : ℕ) (p : Producer) (c : Consumer)
    → IsHandoff r v p c
    → (c ≡ printed 99)
      ⊎ (HasNotPrinted c
          × ((t : System) × Step
                (record { g_ready = r; g_value = v; producer = p; consumer = c })
                t))
unfolding sem_wait
next_step r v working waiting h = inr (tt, (_, write _ refl))
next_step r v written waiting h = inr (tt, (_, post _ refl))
next_step zero v posted waiting h = absurd (omega (arith, h.0))
next_step (suc r) v posted waiting h = inr (tt, (_, wake _ r refl refl))
next_step r v posted woken h = inr (tt, (_, print _ refl))
next_step r v posted (printed w) h = inl (ap printed h.1)
next_step r v working woken h = absurd h
next_step r v working (printed w) h = absurd h
next_step r v written woken h = absurd h
next_step r v written (printed w) h = absurd h

-- The handoff works on every schedule: the consumer prints no other value than 99, which the producer
-- writes, and until it has printed it some thread can go on.
pub handoff-printed :
    (s : System)
    → Reach s
    → (s.consumer ≡ printed 99) ⊎ (HasNotPrinted s.consumer × ((t : System) × Step s t))
handoff-printed s r = next_step s.g_ready s.g_value s.producer s.consumer (Reach-Holds r)
