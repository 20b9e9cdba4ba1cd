-- ===== src/Threads/LockOrder/Progress.antt =====
-- One order of locks, so no deadlock: exercises/24_threads/threads.c.
use native.Mathlib.Decide.{dec_lt}
use c_programming.Prelude.{
  ℕ, ◌+◌, ◌*◌, ◌≤◌, ◌<◌, ◌≡◌, refl, false, arith, if◌then◌else◌, ◌⊎◌, inl, inr, List, [], ◌∷◌,
}
use c_programming.Interleave.{
  Turn, total, total-team, Turn-total, weight-le-total, pick, total_at_most, none_in, unlocked,
}
use c_programming.Threads.LockOrder.{
  Locks, Pc, fresh, has_a, has_both, printed, left_b, ended, Move, get_a, get_b, print, put_b,
  put_a, System, Step, turn, start, Reach, begin, later, holds_a, holds_b, calls_left,
}

record IsOrdered (s : System) : Type 0 where
  one_a : total holds_a s.pcs ≡ (if s.mem.lock_a then 1 else 0)
  one_b : total holds_b s.pcs ≡ (if s.mem.lock_b then 1 else 0)

start-IsOrdered : (n : ℕ) → IsOrdered (start n)
start-IsOrdered n = record {
  one_a = grind (arith, total-team holds_a n fresh);
  one_b = grind (arith, total-team holds_b n fresh);
}

-- Whoever holds B holds A, so B is free whenever nobody has both.
b_within_a : (l : List Pc) → total holds_b l ≤ total holds_a l
unfolding total
b_within_a [] = omega arith
b_within_a (fresh ∷ l) = omega (arith, b_within_a l)
b_within_a (has_a ∷ l) = omega (arith, b_within_a l)
b_within_a (has_both ∷ l) = omega (arith, b_within_a l)
b_within_a (printed ∷ l) = omega (arith, b_within_a l)
b_within_a (left_b ∷ l) = omega (arith, b_within_a l)
b_within_a (ended ∷ l) = omega (arith, b_within_a l)

Step-IsOrdered : {s t : System} → Step s t → IsOrdered s → IsOrdered t
Step-IsOrdered (turn (get_a free) tr) i = record {
  one_a = omega (arith, none_in i.one_a free, Turn-total holds_a tr);
  one_b = omega (arith, i.one_b, Turn-total holds_b tr);
}
Step-IsOrdered (turn (get_b free) tr) i = record {
  one_a = omega (arith, i.one_a, Turn-total holds_a tr);
  one_b = omega (arith, none_in i.one_b free, Turn-total holds_b tr);
}
Step-IsOrdered (turn print tr) i = record {
  one_a = omega (arith, i.one_a, Turn-total holds_a tr);
  one_b = omega (arith, i.one_b, Turn-total holds_b tr);
}
Step-IsOrdered {s} (turn put_b tr) i = record {
  one_a = omega (arith, i.one_a, Turn-total holds_a tr);
  one_b = omega (
    arith,
    total_at_most s.mem.lock_b i.one_b,
    Turn-total holds_b tr,
    weight-le-total holds_b tr,
  );
}
Step-IsOrdered {s} (turn put_a tr) i = record {
  one_a = omega (
    arith,
    total_at_most s.mem.lock_a i.one_a,
    Turn-total holds_a tr,
    weight-le-total holds_a tr,
  );
  one_b = omega (arith, i.one_b, Turn-total holds_b tr);
}

Reach-IsOrdered : {n : ℕ} {s : System} → Reach n s → IsOrdered s
Reach-IsOrdered {n} begin = start-IsOrdered n
Reach-IsOrdered (later r st) = Step-IsOrdered st (Reach-IsOrdered r)

-- The holder of A can go on, once B is free or it has B already.
holder_moves :
    (m : Locks) (p : Pc)
    → 0 < holds_a p
    → (holds_b p ≡ 0 → m.lock_b ≡ false)
    → (m' : Locks) × (q : Pc) × Move m p m' q
holder_moves m fresh h free = absurd (omega arith)
holder_moves m has_a h free = (_, _, get_b (free refl))
holder_moves m has_both h free = (_, _, print)
holder_moves m printed h free = (_, _, put_b)
holder_moves m left_b h free = (_, _, put_a)
holder_moves m ended h free = absurd (omega arith)

starter_moves :
    (m : Locks) (p : Pc)
    → m.lock_a ≡ false
    → holds_a p ≡ 0
    → 0 < calls_left p
    → (m' : Locks) × (q : Pc) × Move m p m' q
starter_moves m fresh free e h = (_, _, get_a free)
starter_moves m ended free e h = absurd (omega arith)
starter_moves m has_a free e h = absurd (omega arith)
starter_moves m has_both free e h = absurd (omega arith)
starter_moves m printed free e h = absurd (omega arith)
starter_moves m left_b free e h = absurd (omega arith)

moved :
    (s : System) (p : Pc)
    → ((q : Pc) → (l : List Pc) × Turn p q s.pcs l)
    → ((m : Locks) × (q : Pc) × Move s.mem p m q)
    → (t : System) × Step s t
moved s p go (m, q, mv) = (_, turn mv (go q).1)

b_free : (s : System) → IsOrdered s → total holds_b s.pcs ≡ 0 → s.mem.lock_b ≡ false
b_free s i e = unlocked s.mem.lock_b i.one_b e

a_free : (s : System) → IsOrdered s → total holds_a s.pcs ≡ 0 → s.mem.lock_a ≡ false
a_free s i e = unlocked s.mem.lock_a i.one_a e

IsOrdered-progress :
    (s : System) → IsOrdered s → (total calls_left s.pcs ≡ 0) ⊎ ((t : System) × Step s t)
IsOrdered-progress s i = elim (dec_lt 0 (total holds_b s.pcs)) [
  | yes both ↦
      let (p, heavy, go) = pick holds_b s.pcs both in
      inr (moved s p go (holder_moves s.mem p (outer p heavy) (λ e. absurd (omega arith))))
  | no none ↦
      let free = b_free s i (omega arith) in
      elim (dec_lt 0 (total holds_a s.pcs)) [
        | yes one ↦
            let (p, heavy, go) = pick holds_a s.pcs one in
            inr (moved s p go (holder_moves s.mem p heavy (λ _. free)))
        | no nobody ↦ elim (dec_lt 0 (total calls_left s.pcs)) [
          | yes more ↦
              let (p, heavy, go) = pick calls_left s.pcs more in
              let light : holds_a p ≡ 0 = omega (arith, weight-le-total holds_a (go ended).1) in
              inr (moved s p go (starter_moves s.mem p (a_free s i (omega arith)) light heavy))
          | no done ↦ inl (omega arith)
        ]
      ]
]
  where
    outer : (p : Pc) → 0 < holds_b p → 0 < holds_a p
    outer fresh h = absurd (omega arith)
    outer has_a h = omega arith
    outer has_both h = omega arith
    outer printed h = omega arith
    outer left_b h = omega arith
    outer ended h = absurd (omega arith)

abbrev pub steps : {n : ℕ} {s : System} → Reach n s → ℕ
steps begin = 0
steps (later r st) = steps r + 1

Step-calls : {s t : System} → Step s t → total calls_left t.pcs + 1 ≡ total calls_left s.pcs
Step-calls (turn (get_a free) tr) = omega (arith, Turn-total calls_left tr)
Step-calls (turn (get_b free) tr) = omega (arith, Turn-total calls_left tr)
Step-calls (turn print tr) = omega (arith, Turn-total calls_left tr)
Step-calls (turn put_b tr) = omega (arith, Turn-total calls_left tr)
Step-calls (turn put_a tr) = omega (arith, Turn-total calls_left tr)

Reach-steps : {n : ℕ} {s : System} (r : Reach n s) → steps r + total calls_left s.pcs ≡ n * 5
Reach-steps {n} begin = omega (arith, total-team calls_left n fresh)
Reach-steps (later r st) = omega (arith, Reach-steps r, Step-calls st)

-- Threads that take both locks in one order all end: each of the two locks has at most one holder;
-- every call that returns takes one off the five of each thread, so a run of `n` threads has at most
-- `5 * n` steps; and while some call is left, some thread can go on.
pub safe_order-ends :
    (n : ℕ) (s : System) (r : Reach n s)
    → (total holds_a s.pcs ≤ 1)
      × (total holds_b s.pcs ≤ 1)
      × (steps r + total calls_left s.pcs ≡ n * 5)
      × ((total calls_left s.pcs ≡ 0) ⊎ ((t : System) × Step s t))
safe_order-ends n s r =
    let i = Reach-IsOrdered r in
    (
      total_at_most s.mem.lock_a i.one_a,
      total_at_most s.mem.lock_b i.one_b,
      Reach-steps r,
      IsOrdered-progress s i,
    )
