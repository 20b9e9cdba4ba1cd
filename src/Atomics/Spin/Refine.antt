-- ===== src/Atomics/Spin/Refine.antt =====
-- The spinlock of exercises/29_atomics/atomics.c does what a mutex promises.
use c_programming.Prelude.{
  ℕ, ◌+◌, ◌*◌, ◌≤◌, ◌≡◌, refl, ap, ap₂, subst, Bool, List, ◌∷◌, ◌⊎◌, inl, inr,
}
use c_programming.Interleave.{Turn, here, there, total}
use c_programming.Threads.Guarded
use c_programming.Threads.Guarded.{Pc, rest, inside, unwritten}
use c_programming.Threads.Guarded.Exact.{Ended, guarded-exact}
use c_programming.Atomics.Spin.{
  Shared, test_and_set, spin, enter, load, store, clear, System, Step, turn, Reach, begin, later,
}

-- The flag as a mutex.
abbrev as_mutex : Shared → Guarded.Shared
as_mutex m = record { locked = m.flag; count = m.spin_count }

abbrev pub view : System → Guarded.System
view s = record { mem = as_mutex s.mem; pcs = s.pcs }

Turn-same : {A : Type 0} {p : A} {l m : List A} → Turn p p l m → l ≡ m
Turn-same (here l) = refl
Turn-same (there a t) = ap (λ l. a ∷ l) (Turn-same t)

-- A step is one of the threads under a mutex, or nothing changes that they see.
pub Step-view : {s t : System} → Step s t → Guarded.Step (view s) (view t) ⊎ (view s ≡ view t)
unfolding test_and_set
Step-view {s} (turn (spin k busy) tr) = inr (
    ap₂
      (λ (b : Bool) (l : List Pc).
        let g : Guarded.System = record {
          mem = record { locked = b; count = s.mem.spin_count };
          pcs = l;
        } in
        g)
      busy (Turn-same tr))
Step-view (turn (enter k free) tr) = inl (Guarded.turn (Guarded.lock k free) tr)
Step-view (turn (load k) tr) = inl (Guarded.turn (Guarded.load k) tr)
Step-view (turn (store k v) tr) = inl (Guarded.turn (Guarded.store k v) tr)
Step-view (turn (clear k) tr) = inl (Guarded.turn (Guarded.unlock k) tr)

extend :
    {n k : ℕ} {a b : Guarded.System}
    → Guarded.Reach n k a
    → (Guarded.Step a b ⊎ (a ≡ b))
    → Guarded.Reach n k b
extend r (inl st) = Guarded.later r st
extend {n} {k} r (inr same) = subst (λ c. Guarded.Reach n k c) same r

pub Reach-view : {n k : ℕ} {s : System} → Reach n k s → Guarded.Reach n k (view s)
Reach-view begin = Guarded.begin
Reach-view (later r st) = extend (Reach-view r) (Step-view st)

-- What a thread under a mutex can do, one with the spinlock can.
view-Step :
    (s : System) (u : Guarded.System)
    → Guarded.Step (view s) u
    → (t : System) × Step s t × Guarded.Step (view s) (view t)
unfolding test_and_set
view-Step s _ (Guarded.turn (Guarded.lock k free) tr) =
    (_, turn (enter k free) tr, Guarded.turn (Guarded.lock k free) tr)
view-Step s _ (Guarded.turn (Guarded.load k) tr) =
    (_, turn (load k) tr, Guarded.turn (Guarded.load k) tr)
view-Step s _ (Guarded.turn (Guarded.store k v) tr) =
    (_, turn (store k v) tr, Guarded.turn (Guarded.store k v) tr)
view-Step s _ (Guarded.turn (Guarded.unlock k) tr) =
    (_, turn (clear k) tr, Guarded.turn (Guarded.unlock k) tr)

-- The spinlock implements a mutex: what its threads and their count look like is always reachable with
-- threads under a mutex. So at most one thread is inside, and no increment is lost. Until all have
-- ended, some thread can take a step that is more than waiting.
pub Reach-Guarded :
    (n k : ℕ) (s : System)
    → Reach n k s
    → Guarded.Reach n k (view s)
      × (total inside s.pcs ≤ 1)
      × (s.mem.spin_count + total unwritten s.pcs ≡ n * k)
      × (Ended s.pcs ⊎ ((t : System) × Step s t × Guarded.Step (view s) (view t)))
Reach-Guarded n k s r =
    let (one, exact, next) = guarded-exact n k (view s) (Reach-view r) in
    (Reach-view r, one, exact, go_on next)
  where
    go_on :
        (Ended s.pcs ⊎ ((u : Guarded.System) × Guarded.Step (view s) u))
        → Ended s.pcs ⊎ ((t : System) × Step s t × Guarded.Step (view s) (view t))
    go_on (inl over) = inl over
    go_on (inr (u, st)) = inr (view-Step s u st)
