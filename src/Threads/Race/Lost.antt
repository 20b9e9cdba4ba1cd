-- ===== src/Threads/Race/Lost.antt =====
-- What the race of exercises/24_threads/threads.c can and cannot do to the count.
use c_programming.Prelude.{ℕ, zero, suc, ◌+◌, ◌*◌, ◌≤◌, ◌≡◌, arith, [], ◌∷◌, subst}
use c_programming.Interleave.{
  here, there, team, total, Each, total-team, Turn-total, Each-team, Turn-at, Turn-Each,
}
use c_programming.Threads.Race.{
  Pc, rest, loaded, load, store, System, Step, turn, start, Reach, begin, later,
}

abbrev pub unwritten : Pc → ℕ
unwritten (rest k) = k
unwritten (loaded k v) = suc k

-- The value that a thread is about to write can still grow to `all` at most.
abbrev IsSmall : ℕ → ℕ → Pc → Type 0
IsSmall all left (rest k) = Unit {0}
IsSmall all left (loaded k v) = v + left ≤ all

record IsBounded (all : ℕ) (s : System) : Type 0 where
  sum : s.g_unsafe + total unwritten s.pcs ≤ all
  reads : Each (IsSmall all (total unwritten s.pcs)) s.pcs

IsSmall-down : (all a b : ℕ) → b ≤ a → (p : Pc) → IsSmall all a p → IsSmall all b p
IsSmall-down all a b h (rest k) i = tt
IsSmall-down all a b h (loaded k v) i = omega arith

Step-IsBounded : {all : ℕ} {s t : System} → Step s t → IsBounded all s → IsBounded all t
Step-IsBounded {all} {s} {t} (turn {l} (load k) tr) i =
    let same : total unwritten l ≡ total unwritten s.pcs = omega (arith, Turn-total unwritten tr) in
    record {
      sum = omega (arith, i.sum);
      reads =
          Turn-Each (IsSmall all (total unwritten s.pcs)) (IsSmall all (total unwritten l))
            (IsSmall-down all (total unwritten s.pcs) (total unwritten l) (omega arith)) tr i.reads
            (omega (arith, i.sum));
    }
Step-IsBounded {all} {s} {t} (turn {l} (store k v) tr) i =
    let less : total unwritten l + 1 ≡ total unwritten s.pcs =
      omega (arith, Turn-total unwritten tr) in
    let read : v + total unwritten s.pcs ≤ all =
      Turn-at (IsSmall all (total unwritten s.pcs)) tr i.reads in
    record {
      sum = omega arith;
      reads =
          Turn-Each (IsSmall all (total unwritten s.pcs)) (IsSmall all (total unwritten l))
            (IsSmall-down all (total unwritten s.pcs) (total unwritten l) (omega arith)) tr i.reads
            tt;
    }

start-IsBounded : (n k : ℕ) → IsBounded (n * k) (start n k)
start-IsBounded n k = record {
  sum = omega (arith, total-team unwritten n (rest k));
  reads = Each-team (IsSmall (n * k) (total unwritten (team n (rest k)))) n tt;
}

Reach-IsBounded : (n k : ℕ) {s : System} → Reach (start n k) s → IsBounded (n * k) s
Reach-IsBounded n k begin = start-IsBounded n k
Reach-IsBounded n k (later r st) = Step-IsBounded st (Reach-IsBounded n k r)

-- Two threads that go in step: both load, then both store.
abbrev pub pair : ℕ → ℕ → System
pair g k = record { g_unsafe = g; pcs = rest k ∷ rest k ∷ [] }

Reach-trans : {s t u : System} → Reach s t → Reach t u → Reach s u
Reach-trans r begin = r
Reach-trans r (later q st) = later (Reach-trans r q) st

in_step : (g k : ℕ) → Reach (pair g (suc k)) (pair (g + 1) k)
in_step g k =
    later
      (later (later (later begin (turn (load k) (here _))) (turn (load k) (there _ (here _))))
        (turn (store k g) (here _)))
      (turn (store k g) (there _ (here _)))

pub all_in_step : (k g : ℕ) → Reach (pair g k) (pair (g + k) 0)
all_in_step zero g = subst (λ m. Reach (pair g 0) (pair m 0)) (same g) begin
  where
    same : (g : ℕ) → g ≡ g + 0
    same g = omega arith
all_in_step (suc k) g =
    Reach-trans (in_step g k)
      (subst (λ m. Reach (pair (g + 1) k) (pair m 0)) (moved g k) (all_in_step k (g + 1)))
  where
    moved : (g k : ℕ) → g + 1 + k ≡ g + suc k
    moved g k = omega arith

-- The race loses increments and never makes up any: the count and the increments still to be written
-- are at most one for each round of each thread, on every schedule; and there is a schedule of two
-- threads on which both have ended and every second increment is lost.
pub count-unsafe :
    (n k : ℕ) (s : System)
    → Reach (start n k) s
    → (s.g_unsafe + total unwritten s.pcs ≤ n * k) × Reach (start 2 k) (pair k 0)
count-unsafe n k s r = (
  (Reach-IsBounded n k r).sum,
  subst (λ m. Reach (start 2 k) (pair m 0)) (same k) (all_in_step k 0),
)
  where
    same : (k : ℕ) → 0 + k ≡ k
    same k = omega arith
