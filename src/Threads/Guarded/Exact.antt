-- ===== src/Threads/Guarded/Exact.antt =====
-- The mutex of exercises/24_threads/threads.c keeps every increment.
use c_programming.Prelude.{
  ℕ, zero, suc, ◌+◌, ◌*◌, ◌≤◌, ◌<◌, ◌≡◌, refl, false, arith, if◌then◌else◌, ◌⊎◌, inl, inr,
  Bool-cases, List, [], ◌∷◌,
}
use native.Mathlib.Decide.{dec_lt}
use c_programming.Interleave.{
  Turn, total, Each, total-team, Turn-total, weight-le-total, pick, Each-team, Turn-at, Turn-Each,
  Turn-alone, total_at_most, none_in,
}
use c_programming.Threads.Guarded.{
  Shared, Pc, rest, held, loaded, stored, Move, lock, load, store, unlock, System, Step, turn,
  start, Reach, begin, later, inside, unwritten,
}

-- What a thread has read is still the count.
abbrev IsFresh : ℕ → Pc → Type 0
IsFresh c (loaded k v) = v ≡ c
IsFresh c _ = Unit

IsFresh-outside : (c : ℕ) (p : Pc) → inside p ≡ 0 → IsFresh c p
IsFresh-outside c (rest k) e = tt
IsFresh-outside c (held k) e = tt
IsFresh-outside c (loaded k v) e = absurd (omega arith)
IsFresh-outside c (stored k) e = tt

record IsExact (all : ℕ) (s : System) : Type 0 where
  one : total inside s.pcs ≡ (if s.mem.locked then 1 else 0)
  sum : s.mem.count + total unwritten s.pcs ≡ all
  fresh : Each (IsFresh s.mem.count) s.pcs

start-IsExact : (n k : ℕ) → IsExact (n * k) (start n k)
start-IsExact n k = record {
  one = grind (arith, total-team inside n (rest k));
  sum = omega (arith, total-team unwritten n (rest k));
  fresh = Each-team (IsFresh 0) n tt;
}

Step-IsExact : {all : ℕ} {s t : System} → Step s t → IsExact all s → IsExact all t
Step-IsExact {all} {s} (turn (lock k free) tr) i = record {
  one = omega (arith, none_in i.one free, Turn-total inside tr);
  sum = omega (arith, i.sum, Turn-total unwritten tr);
  fresh = Turn-Each (IsFresh s.mem.count) (IsFresh s.mem.count) (λ a f. f) tr i.fresh tt;
}
Step-IsExact {all} {s} (turn (load k) tr) i = record {
  one = omega (arith, i.one, Turn-total inside tr);
  sum = omega (arith, i.sum, Turn-total unwritten tr);
  fresh = Turn-Each (IsFresh s.mem.count) (IsFresh s.mem.count) (λ a f. f) tr i.fresh refl;
}
Step-IsExact {all} {s} (turn (store k v) tr) i =
    let same : v ≡ s.mem.count = Turn-at (IsFresh s.mem.count) tr i.fresh in
    record {
      one = omega (arith, i.one, Turn-total inside tr);
      sum = omega (arith, i.sum, Turn-total unwritten tr);
      fresh =
          Turn-alone (IsFresh s.mem.count) (IsFresh (v + 1)) inside
            (λ a _ e. IsFresh-outside (v + 1) a e) tr (total_at_most s.mem.locked i.one) refl
            i.fresh tt;
    }
Step-IsExact {all} {s} (turn (unlock k) tr) i = record {
  one =
      omega
        (arith, total_at_most s.mem.locked i.one, Turn-total inside tr, weight-le-total inside tr);
  sum = omega (arith, i.sum, Turn-total unwritten tr);
  fresh = Turn-Each (IsFresh s.mem.count) (IsFresh s.mem.count) (λ a f. f) tr i.fresh tt;
}

Reach-IsExact : {n k : ℕ} {s : System} → Reach n k s → IsExact (n * k) s
Reach-IsExact {n} {k} begin = start-IsExact n k
Reach-IsExact (later r st) = Step-IsExact st (Reach-IsExact r)

-- Nothing is left to do.
abbrev pub Ended : List Pc → Type 0
Ended = Each (λ p. p ≡ rest 0)

Ended-weights : (l : List Pc) → total inside l ≡ 0 → total unwritten l ≡ 0 → Ended l
unfolding total
Ended-weights [] e f = tt
Ended-weights (rest zero ∷ l) e f = (refl, Ended-weights l (omega arith) (omega arith))
Ended-weights (rest (suc k) ∷ l) e f = absurd (omega arith)
Ended-weights (held k ∷ l) e f = absurd (omega arith)
Ended-weights (loaded k v ∷ l) e f = absurd (omega arith)
Ended-weights (stored k ∷ l) e f = absurd (omega arith)

-- The holder of the mutex can go on.
holder_moves : (m : Shared) (p : Pc) → 0 < inside p → (m' : Shared) × (q : Pc) × Move m p m' q
holder_moves m (rest k) h = absurd (omega arith)
holder_moves m (held k) h = (_, _, load k)
holder_moves m (loaded k v) h = (_, _, store k v)
holder_moves m (stored k) h = (_, _, unlock k)

-- A thread that is not inside and has rounds left can take a free mutex.
waiter_moves :
    (m : Shared) (p : Pc)
    → m.locked ≡ false
    → inside p ≡ 0
    → 0 < unwritten p
    → (m' : Shared) × (q : Pc) × Move m p m' q
waiter_moves m (rest zero) free e h = absurd (omega arith)
waiter_moves m (rest (suc k)) free e h = (_, _, lock k free)
waiter_moves m (held k) free e h = absurd (omega arith)
waiter_moves m (loaded k v) free e h = absurd (omega arith)
waiter_moves m (stored k) free e h = absurd (omega arith)

moved :
    (s : System) (p : Pc)
    → ((q : Pc) → (l : List Pc) × Turn p q s.pcs l)
    → ((m : Shared) × (q : Pc) × Move s.mem p m q)
    → (t : System) × Step s t
moved s p go (m, q, mv) = (_, turn mv (go q).1)

IsExact-progress : (all : ℕ) (s : System) → IsExact all s → Ended s.pcs ⊎ ((t : System) × Step s t)
IsExact-progress all s i = elim (Bool-cases s.mem.locked) [
  | inl taken ↦
      let (p, heavy, go) = pick inside s.pcs (ground (arith, i.one)) in
      inr (moved s p go (holder_moves s.mem p heavy))
  | inr free ↦ elim (dec_lt 0 (total unwritten s.pcs)) [
    | yes more ↦
        let (p, heavy, go) = pick unwritten s.pcs more in
        let light : inside p ≡ 0 =
          omega (arith, none_in i.one free, weight-le-total inside (go (rest 0)).1) in
        inr (moved s p go (waiter_moves s.mem p free light heavy))
    | no done ↦ inl (Ended-weights s.pcs (none_in i.one free) (omega arith))
  ]
]

-- Whatever the scheduler chooses, at most one thread is between the return of the lock and the unlock,
-- no increment is lost: the count and the increments still to be written are together one for each
-- round of each thread. And some thread can go on until all of them have ended.
pub guarded-exact :
    (n k : ℕ) (s : System)
    → Reach n k s
    → (total inside s.pcs ≤ 1)
      × (s.mem.count + total unwritten s.pcs ≡ n * k)
      × (Ended s.pcs ⊎ ((t : System) × Step s t))
guarded-exact n k s r =
    let i = Reach-IsExact r in
    (total_at_most s.mem.locked i.one, i.sum, IsExact-progress (n * k) s i)
