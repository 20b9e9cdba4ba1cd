-- ===== src/Atomics/Spin.antt =====
-- The spinlock of exercises/29_atomics/atomics.c and its workers, an atomic step at a time.
pub mod Refine
use c_programming.Prelude.{ℕ, zero, suc, ◌+◌, ◌≡◌, Bool, true, false, List}
use c_programming.Interleave.{Turn, team}
use c_programming.Threads.Guarded.{Pc, rest, held, loaded, stored}

-- `Spinlock` with `g_spin_count`.
pub record Shared : Type 0 where
  pub flag : Bool
  pub spin_count : ℕ

-- `atomic_flag_test_and_set`: the new value of the flag and the old one.
unfoldable pub test_and_set : Bool → Bool × Bool
test_and_set flag = (true, flag)

-- A thread of `spin_worker` stands where one under a mutex does, but it moves while it waits.
pub data Move (m : Shared) : Pc → Shared → Pc → Type 0 where
  spin :
      (k : ℕ)
      → (test_and_set m.flag).1 ≡ true
      → Move m (rest (suc k)) (record m { flag = (test_and_set m.flag).0 }) (rest (suc k))
  enter :
      (k : ℕ)
      → (test_and_set m.flag).1 ≡ false
      → Move m (rest (suc k)) (record m { flag = (test_and_set m.flag).0 }) (held k)
  load : (k : ℕ) → Move m (held k) m (loaded k m.spin_count)
  store : (k v : ℕ) → Move m (loaded k v) (record m { spin_count = v + 1 }) (stored k)
  clear : (k : ℕ) → Move m (stored k) (record m { flag = false }) (rest k)

pub record System : Type 0 where
  pub mem : Shared
  pub pcs : List Pc

pub data Step (s : System) : System → Type 0 where
  turn :
      {m : Shared} {p q : Pc} {l : List Pc}
      → Move s.mem p m q
      → Turn p q s.pcs l
      → Step s (record { mem = m; pcs = l })

abbrev pub start : ℕ → ℕ → System
start n k = record { mem = record { flag = false; spin_count = 0 }; pcs = team n (rest k) }

pub data Reach (n k : ℕ) : System → Type 0 where
  begin : Reach n k (start n k)
  later : {s t : System} → Reach n k s → Step s t → Reach n k t
