-- ===== src/Atomics/Counter.antt =====
-- `safe_worker` and `section2_counter` of exercises/29_atomics/atomics.c: an atomic counter.
-- (`unsafe_worker` runs the race of `Threads.Race`.)
use c_programming.Prelude.{ℕ, zero, suc, ◌+◌, ◌*◌, ◌<◌, ◌≡◌, List, arith, ◌⊎◌, inl, inr}
use native.Mathlib.Decide.{dec_lt}
use c_programming.Interleave.{Turn, team, total, total-team, Turn-total, pick}
use c_programming.Atomics.{u64, fetch_add}

-- The number of rounds that a thread has left.
pub data Pc : Type 0 where
  rest : (left : ℕ) → Pc

pub data Move (g : ℕ) : Pc → ℕ → Pc → Type 0 where
  add : (k : ℕ) → Move g (rest (suc k)) (fetch_add u64 g 1).0 (rest k)

pub record System : Type 0 where
  pub g_safe : ℕ
  pub pcs : List Pc

pub data Step (s : System) : System → Type 0 where
  turn :
      {g : ℕ} {p q : Pc} {l : List Pc}
      → Move s.g_safe p g q
      → Turn p q s.pcs l
      → Step s (record { g_safe = g; pcs = l })

abbrev pub start : ℕ → ℕ → System
start n k = record { g_safe = 0; pcs = team n (rest k) }

pub data Reach (n k : ℕ) : System → Type 0 where
  begin : Reach n k (start n k)
  later : {s t : System} → Reach n k s → Step s t → Reach n k t

abbrev pub rounds : Pc → ℕ
rounds (rest k) = k

abbrev pub steps : {n k : ℕ} {s : System} → Reach n k s → ℕ
steps begin = 0
steps (later r st) = steps r + 1

Step-count :
    (all : ℕ) {s t : System}
    → all < u64
    → Step s t
    → s.g_safe + total rounds s.pcs ≡ all
    → t.g_safe + total rounds t.pcs ≡ all
unfolding fetch_add
Step-count all small (turn (add k) tr) e = omega (arith, Turn-total rounds tr)

Reach-count :
    {n k : ℕ} {s : System} → n * k < u64 → Reach n k s → s.g_safe + total rounds s.pcs ≡ n * k
Reach-count {n} {k} small begin = omega (arith, total-team rounds n (rest k))
Reach-count {n} {k} small (later r st) = Step-count (n * k) small st (Reach-count small r)

Reach-steps : {n k : ℕ} {s : System} (r : Reach n k s) → steps r + total rounds s.pcs ≡ n * k
Reach-steps {n} {k} begin = omega (arith, total-team rounds n (rest k))
Reach-steps (later r (turn (add k) tr)) = omega (arith, Reach-steps r, Turn-total rounds tr)

mover : (s : System) → 0 < total rounds s.pcs → (t : System) × Step s t
mover s more = go (pick rounds s.pcs more)
  where
    go :
        ((p : Pc) × (0 < rounds p) × ((q : Pc) → (l : List Pc) × Turn p q s.pcs l))
        → (t : System) × Step s t
    go (rest zero, h, at) = absurd (omega arith)
    go (rest (suc k), h, at) = (_, turn (add k) (at (rest k)).1)

-- An atomic counter loses nothing: on every schedule of `n` threads with `k` rounds each the counter
-- and the rounds left are together `n * k`, if 64 bits hold that. A run has at most `n * k` steps, and
-- one that is shorter can go on.
pub atomic-exact :
    (n k : ℕ) (s : System)
    → n * k < u64
    → (r : Reach n k s)
    → (s.g_safe + total rounds s.pcs ≡ n * k)
      × (steps r + total rounds s.pcs ≡ n * k)
      × ((total rounds s.pcs ≡ 0) ⊎ ((t : System) × Step s t))
atomic-exact n k s small r = (
  Reach-count small r,
  Reach-steps r,
  elim (dec_lt 0 (total rounds s.pcs)) [
    | yes more ↦ inr (mover s more)
    | no done ↦ inl (omega arith)
  ],
)
