-- ===== src/Semaphores/Pool.antt =====
-- `worker` and `section4_counting` of exercises/30_semaphores/semaphores.c: workers that share a pool
-- of resources.
use native.Mathlib.Decide.{dec_lt}
use c_programming.Prelude.{ℕ, zero, suc, ◌+◌, ◌*◌, ◌<◌, ◌≡◌, refl, some, List, ◌⊎◌, inl, inr, arith}
use c_programming.Interleave.{Turn, team, total, total-team, Turn-total, weight-le-total, pick}
use c_programming.Semaphores.{sem_wait, sem_post}

abbrev pub pool_size : ℕ
pool_size = 3

abbrev pub num_workers : ℕ
num_workers = 6

pub data Pc : Type 0 where
  fresh : Pc
  got : Pc  -- after `sem_wait`
  used : Pc  -- after the first `printf`
  releasing : Pc  -- after the second
  ended : Pc

-- One call of a worker, with the value of `g_pool`. One that blocks does not move.
pub data Move (pool : ℕ) : Pc → ℕ → Pc → Type 0 where
  wait : (v : ℕ) → sem_wait pool ≡ some v → Move pool fresh v got
  use_it : Move pool got pool used
  done : Move pool used pool releasing
  post : Move pool releasing (sem_post pool) ended

pub record System : Type 0 where
  pub pool : ℕ
  pub pcs : List Pc

pub data Step (s : System) : System → Type 0 where
  turn :
      {v : ℕ} {p q : Pc} {l : List Pc}
      → Move s.pool p v q
      → Turn p q s.pcs l
      → Step s (record { pool = v; pcs = l })

-- `n` workers and `size` resources.
abbrev pub start : ℕ → ℕ → System
start n size = record { pool = size; pcs = team n fresh }

pub data Reach (n size : ℕ) : System → Type 0 where
  begin : Reach n size (start n size)
  later : {s t : System} → Reach n size s → Step s t → Reach n size t

abbrev pub holds : Pc → ℕ
holds fresh = 0
holds ended = 0
holds _ = 1

abbrev pub calls_left : Pc → ℕ
calls_left fresh = 4
calls_left got = 3
calls_left used = 2
calls_left releasing = 1
calls_left ended = 0

abbrev pub steps : {n size : ℕ} {s : System} → Reach n size s → ℕ
steps begin = 0
steps (later r st) = steps r + 1

waited : (pool v : ℕ) → sem_wait pool ≡ some v → pool ≡ v + 1
unfolding sem_wait
waited zero v e = absurd (ground arith)
waited (suc w) v e = ground arith

Step-pool :
    {s t : System}
    → Step s t
    → (s.pool + total holds s.pcs ≡ t.pool + total holds t.pcs)
      × (total calls_left t.pcs + 1 ≡ total calls_left s.pcs)
Step-pool {s} (turn (wait v e) tr) =
    (omega (arith, waited s.pool v e, Turn-total holds tr), omega (arith, Turn-total calls_left tr))
Step-pool (turn use_it tr) =
    (omega (arith, Turn-total holds tr), omega (arith, Turn-total calls_left tr))
Step-pool (turn done tr) =
    (omega (arith, Turn-total holds tr), omega (arith, Turn-total calls_left tr))
Step-pool (turn post tr) =
    (omega (arith, Turn-total holds tr), omega (arith, Turn-total calls_left tr))

Reach-pool :
    {n size : ℕ} {s : System} (r : Reach n size s)
    → (s.pool + total holds s.pcs ≡ size) × (steps r + total calls_left s.pcs ≡ n * 4)
Reach-pool {n} {size} begin =
    (omega (arith, total-team holds n fresh), omega (arith, total-team calls_left n fresh))
Reach-pool (later r st) = (
  omega (arith, (Reach-pool r).0, (Step-pool st).0),
  omega (arith, (Reach-pool r).1, (Step-pool st).1),
)

holder_moves : (pool : ℕ) (p : Pc) → 0 < holds p → (v : ℕ) × (q : Pc) × Move pool p v q
holder_moves pool fresh h = absurd (omega arith)
holder_moves pool got h = (_, _, use_it)
holder_moves pool used h = (_, _, done)
holder_moves pool releasing h = (_, _, post)
holder_moves pool ended h = absurd (omega arith)

starter_moves :
    (pool : ℕ) (p : Pc)
    → 0 < pool
    → holds p ≡ 0
    → 0 < calls_left p
    → (v : ℕ) × (q : Pc) × Move pool p v q
unfolding sem_wait
starter_moves zero fresh h e c = absurd (omega arith)
starter_moves (suc v) fresh h e c = (_, _, wait v refl)
starter_moves pool got h e c = absurd (omega arith)
starter_moves pool used h e c = absurd (omega arith)
starter_moves pool releasing h e c = absurd (omega arith)
starter_moves pool ended h e c = absurd (omega arith)

moved :
    (s : System) (p : Pc)
    → ((q : Pc) → (l : List Pc) × Turn p q s.pcs l)
    → ((v : ℕ) × (q : Pc) × Move s.pool p v q)
    → (t : System) × Step s t
moved s p go (v, q, mv) = (_, turn mv (go q).1)

progress :
    (s : System)
    → 0 < s.pool + total holds s.pcs
    → (total calls_left s.pcs ≡ 0) ⊎ ((t : System) × Step s t)
progress s some_left = elim (dec_lt 0 (total holds s.pcs)) [
  | yes held ↦
      let (p, heavy, go) = pick holds s.pcs held in inr (moved s p go (holder_moves s.pool p heavy))
  | no nobody ↦ elim (dec_lt 0 (total calls_left s.pcs)) [
    | yes more ↦
        let (p, heavy, go) = pick calls_left s.pcs more in
        let light : holds p ≡ 0 = omega (arith, weight-le-total holds (go ended).1) in
        inr (moved s p go (starter_moves s.pool p (omega arith) light heavy))
    | no over ↦ inl (omega arith)
  ]
]

-- The pool of a counting semaphore: on every schedule its value and the workers between `sem_wait` and
-- `sem_post` are together the size of the pool, so no more workers than that use it at a time. Each
-- worker makes four calls, and with a pool that is not empty some worker can go on until all have.
pub pool-bounded :
    (n size : ℕ) (s : System)
    → 0 < size
    → (r : Reach n size s)
    → (s.pool + total holds s.pcs ≡ size)
      × (steps r + total calls_left s.pcs ≡ n * 4)
      × ((total calls_left s.pcs ≡ 0) ⊎ ((t : System) × Step s t))
pool-bounded n size s some_left r =
    let (bounded, counted) = Reach-pool r in (bounded, counted, progress s (omega arith))
