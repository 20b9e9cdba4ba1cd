-- ===== src/Threads/LockOrder.antt =====
-- `safe_order` of exercises/24_threads/threads.c: threads that take two locks in one order.
pub mod Progress
mod Tests
use c_programming.Prelude.{ℕ, ◌≡◌, Bool, true, false, List}
use c_programming.Interleave.{Turn, team}

pub record Locks : Type 0 where
  pub lock_a : Bool
  pub lock_b : Bool

pub data Pc : Type 0 where
  fresh : Pc
  has_a : Pc  -- after the first lock
  has_both : Pc  -- after the second, before the `printf`
  printed : Pc  -- before the first unlock
  left_b : Pc  -- before the second unlock
  ended : Pc

-- One call of the library by one thread; it does not move while the lock it asks for is taken.
pub data Move (m : Locks) : Pc → Locks → Pc → Type 0 where
  get_a : m.lock_a ≡ false → Move m fresh (record m { lock_a = true }) has_a
  get_b : m.lock_b ≡ false → Move m has_a (record m { lock_b = true }) has_both
  print : Move m has_both m printed
  put_b : Move m printed (record m { lock_b = false }) left_b
  put_a : Move m left_b (record m { lock_a = false }) ended

pub record System : Type 0 where
  pub mem : Locks
  pub pcs : List Pc

pub data Step (s : System) : System → Type 0 where
  turn :
      {m : Locks} {p q : Pc} {l : List Pc}
      → Move s.mem p m q
      → Turn p q s.pcs l
      → Step s (record { mem = m; pcs = l })

abbrev pub start : ℕ → System
start n = record { mem = record { lock_a = false; lock_b = false }; pcs = team n fresh }

pub data Reach (n : ℕ) : System → Type 0 where
  begin : Reach n (start n)
  later : {s t : System} → Reach n s → Step s t → Reach n t

abbrev pub holds_a : Pc → ℕ
holds_a fresh = 0
holds_a ended = 0
holds_a _ = 1

abbrev pub holds_b : Pc → ℕ
holds_b has_both = 1
holds_b printed = 1
holds_b _ = 0

-- The calls that a thread has still to make.
abbrev pub calls_left : Pc → ℕ
calls_left fresh = 5
calls_left has_a = 4
calls_left has_both = 3
calls_left printed = 2
calls_left left_b = 1
calls_left ended = 0
