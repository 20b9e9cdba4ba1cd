-- ===== src/Threads/Race.antt =====
-- `unsafe_inc` and `section_race` of exercises/24_threads/threads.c: threads that count with no mutex.
-- The `++` on the volatile `g_unsafe` is a load and a store; the language leaves such a race undefined, and
-- what is modelled is what the comment of the section describes.
pub mod Lost
mod Tests
use c_programming.Prelude.{ℕ, zero, suc, ◌+◌, List}
use c_programming.Interleave.{Turn, team}

pub data Pc : Type 0 where
  rest : (left : ℕ) → Pc
  loaded : (left v : ℕ) → Pc

-- One access of `g_unsafe`, whose value is the first index.
pub data Move (g : ℕ) : Pc → ℕ → Pc → Type 0 where
  load : (k : ℕ) → Move g (rest (suc k)) g (loaded k g)
  store : (k v : ℕ) → Move g (loaded k v) (v + 1) (rest k)

pub record System : Type 0 where
  pub g_unsafe : ℕ
  pub pcs : List Pc

pub data Step (s : System) : System → Type 0 where
  turn :
      {g : ℕ} {p q : Pc} {l : List Pc}
      → Move s.g_unsafe p g q
      → Turn p q s.pcs l
      → Step s (record { g_unsafe = g; pcs = l })

-- `section_race` with `n` threads and `k` rounds for each.
abbrev pub start : ℕ → ℕ → System
start n k = record { g_unsafe = 0; pcs = team n (rest k) }

pub data Reach (s : System) : System → Type 0 where
  begin : Reach s s
  later : {t u : System} → Reach s t → Step t u → Reach s u
