-- ===== src/Threads/Guarded.antt =====
-- `safe_inc` and `section_mutex` of exercises/24_threads/threads.c: threads that count under a mutex,
-- a shared access at a time.
pub mod Exact
mod Tests
use c_programming.Prelude.{ℕ, zero, suc, ◌+◌, ◌*◌, ◌≡◌, Bool, true, false, List}
use c_programming.Interleave.{Turn, team}

abbrev pub nthreads : ℕ
nthreads = 4

abbrev pub iters : ℕ
iters = 500000

-- `g_mutex` and `g_safe`. The count stays at or below `nthreads * iters`, which a `long` holds.
pub record Shared : Type 0 where
  pub locked : Bool
  pub count : ℕ

-- Where a thread stands in its loop, with the number of rounds that are left.
pub data Pc : Type 0 where
  rest : (left : ℕ) → Pc  -- at the head of the loop; ended where no round is left
  held : (left : ℕ) → Pc  -- has the mutex
  loaded : (left v : ℕ) → Pc  -- has read `v`, the `++` is not written yet
  stored : (left : ℕ) → Pc  -- still has the mutex

-- One shared access of one thread. A thread that waits for the mutex does not move.
pub data Move (m : Shared) : Pc → Shared → Pc → Type 0 where
  lock : (k : ℕ) → m.locked ≡ false → Move m (rest (suc k)) (record m { locked = true }) (held k)
  load : (k : ℕ) → Move m (held k) m (loaded k m.count)
  store : (k v : ℕ) → Move m (loaded k v) (record m { count = v + 1 }) (stored k)
  unlock : (k : ℕ) → Move m (stored k) (record m { locked = false }) (rest k)

pub record System : Type 0 where
  pub mem : Shared
  pub pcs : List Pc

pub data Step (s : System) : System → Type 0 where
  turn :
      {m : Shared} {p q : Pc} {l : List Pc}
      → Move s.mem p m q
      → Turn p q s.pcs l
      → Step s (record { mem = m; pcs = l })

-- `section_mutex` with `n` threads and `k` rounds for each.
abbrev pub start : ℕ → ℕ → System
start n k = record { mem = record { locked = false; count = 0 }; pcs = team n (rest k) }

pub data Reach (n k : ℕ) : System → Type 0 where
  begin : Reach n k (start n k)
  later : {s t : System} → Reach n k s → Step s t → Reach n k t

-- 1 from the return of `pthread_mutex_lock` to the call of `pthread_mutex_unlock`.
abbrev pub inside : Pc → ℕ
inside (rest k) = 0
inside _ = 1

-- The increments that a thread has still to write.
abbrev pub unwritten : Pc → ℕ
unwritten (rest k) = k
unwritten (held k) = suc k
unwritten (loaded k v) = suc k
unwritten (stored k) = k
