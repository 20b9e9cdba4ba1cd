-- ===== src/Multiplexing/Readers.antt =====
-- The loops of exercises/28_io_multiplexing/io_mux.c around select and poll do the same.
use c_programming.Prelude.{
  ℕ, ◌+◌, ◌≤◌, ◌≡◌, refl, ◌∙◌, Bool, true, false, Option, none, some, List, [], ◌∷◌, if◌then◌else◌,
  arith, length,
}
use c_programming.Multiplexing.{
  Pipe, ra, rb, Answer, timeout, error, ready, Act, timed_out, complained, got, closed, serve,
  select_loop, Slot, poll_loop,
}

-- The slot of a pipe that is done, or not.
abbrev pub slot : Pipe → Bool → Slot
slot p true = none
slot p false = some p

abbrev pub open_slots : Bool → Bool → ℕ
open_slots done_a done_b = (if done_a then 0 else 1) + (if done_b then 0 else 1)

pub poll_loop-select_loop :
    (answers : List Answer) (done_a done_b : Bool)
    → poll_loop answers (slot ra done_a) (slot rb done_b) (open_slots done_a done_b)
      ≡ select_loop answers done_a done_b
unfolding poll_loop select_loop
poll_loop-select_loop [] true true = refl
poll_loop-select_loop [] true false = refl
poll_loop-select_loop [] false true = refl
poll_loop-select_loop [] false false = refl
poll_loop-select_loop (timeout ∷ more) true true = refl
poll_loop-select_loop (timeout ∷ more) true false = refl
poll_loop-select_loop (timeout ∷ more) false true = refl
poll_loop-select_loop (timeout ∷ more) false false = refl
poll_loop-select_loop (error ∷ more) true true = refl
poll_loop-select_loop (error ∷ more) true false = refl
poll_loop-select_loop (error ∷ more) false true = refl
poll_loop-select_loop (error ∷ more) false false = refl
poll_loop-select_loop (ready a b ∷ more) true true = refl
poll_loop-select_loop (ready a true ∷ more) true false =
    rw (poll_loop-select_loop more true true) refl
poll_loop-select_loop (ready a false ∷ more) true false =
    rw (poll_loop-select_loop more true false) refl
poll_loop-select_loop (ready true b ∷ more) false true =
    rw (poll_loop-select_loop more true true) refl
poll_loop-select_loop (ready false b ∷ more) false true =
    rw (poll_loop-select_loop more false true) refl
poll_loop-select_loop (ready true true ∷ more) false false =
    rw (poll_loop-select_loop more true true) refl
poll_loop-select_loop (ready true false ∷ more) false false =
    rw (poll_loop-select_loop more true false) refl
poll_loop-select_loop (ready false true ∷ more) false false =
    rw (poll_loop-select_loop more false true) refl
poll_loop-select_loop (ready false false ∷ more) false false =
    rw (poll_loop-select_loop more false false) refl

abbrev same : Pipe → Pipe → ℕ
same ra ra = 1
same rb rb = 1
same ra rb = 0
same rb ra = 0

abbrev pub closes : Pipe → List Act → ℕ
closes p [] = 0
closes p (closed q ∷ l) = same p q + closes p l
closes p (timed_out ∷ l) = closes p l
closes p (complained ∷ l) = closes p l
closes p (got q t ∷ l) = closes p l

abbrev pub reads : Pipe → List Act → ℕ
reads p [] = 0
reads p (closed q ∷ l) = reads p l
reads p (timed_out ∷ l) = reads p l
reads p (complained ∷ l) = reads p l
reads p (got q t ∷ l) = same p q + reads p l

-- What the system promises of its answers: a call that is not in vain names a pipe that was asked for.
abbrev pub IsPromised : List Answer → Bool → Bool → Type 0
IsPromised [] da db = Unit
IsPromised (timeout ∷ more) da db = Unit
IsPromised (error ∷ more) da db = Unit
IsPromised (ready a b ∷ more) true true = Unit
IsPromised (ready a b ∷ more) true false = (b ≡ true) × IsPromised more true b
IsPromised (ready a b ∷ more) false true = (a ≡ true) × IsPromised more a true
IsPromised (ready true b ∷ more) false false = IsPromised more true b
IsPromised (ready false b ∷ more) false false = (b ≡ true) × IsPromised more false b

-- The acts of a loop that starts with the pipes done or not.
abbrev Ends : Bool → Bool → Option (List Act) → Type 0
Ends da db none = ⊥
Ends da db (some acts) =
    (closes ra acts + (if da then 1 else 0) ≡ 1)
    × (closes rb acts + (if db then 1 else 0) ≡ 1)
    × (reads ra acts + (if da then 1 else 0) ≤ 1)
    × (reads rb acts + (if db then 1 else 0) ≤ 1)

abbrev served : Bool → Bool → Option (List Act) → Option (List Act)
served a b none = none
served a b (some rest) = some (serve ra a (serve rb b rest))

Ends-both : (r : Option (List Act)) → Ends true true r → Ends false false (served true true r)
Ends-both none e = e
Ends-both (some acts) e = omega arith

Ends-a : (db : Bool) (r : Option (List Act)) → Ends true db r → Ends false db (served true false r)
Ends-a db none e = e
Ends-a true (some acts) e = omega arith
Ends-a false (some acts) e = omega arith

Ends-b : (da : Bool) (r : Option (List Act)) → Ends da true r → Ends da false (served false true r)
Ends-b da none e = e
Ends-b true (some acts) e = omega arith
Ends-b false (some acts) e = omega arith

select_loop-Ends :
    (answers : List Answer) (da db : Bool)
    → IsPromised answers da db
    → open_slots da db ≤ length answers
    → Ends da db (select_loop answers da db)
unfolding select_loop
select_loop-Ends [] true true p few = omega arith
select_loop-Ends [] true false p few = absurd (omega arith)
select_loop-Ends [] false true p few = absurd (omega arith)
select_loop-Ends [] false false p few = absurd (omega arith)
select_loop-Ends (timeout ∷ more) true true p few = omega arith
select_loop-Ends (timeout ∷ more) true false p few = omega arith
select_loop-Ends (timeout ∷ more) false true p few = omega arith
select_loop-Ends (timeout ∷ more) false false p few = omega arith
select_loop-Ends (error ∷ more) true true p few = omega arith
select_loop-Ends (error ∷ more) true false p few = omega arith
select_loop-Ends (error ∷ more) false true p few = omega arith
select_loop-Ends (error ∷ more) false false p few = omega arith
select_loop-Ends (ready a b ∷ more) true true p few = omega arith
select_loop-Ends (ready a true ∷ more) true false p few =
    Ends-b true (select_loop more true true) (select_loop-Ends more true true p.1 (omega arith))
select_loop-Ends (ready a false ∷ more) true false p few = absurd (cc p.0)
select_loop-Ends (ready true b ∷ more) false true p few =
    Ends-a true (select_loop more true true) (select_loop-Ends more true true p.1 (omega arith))
select_loop-Ends (ready false b ∷ more) false true p few = absurd (cc p.0)
select_loop-Ends (ready true true ∷ more) false false p few =
    Ends-both (select_loop more true true) (select_loop-Ends more true true p (omega arith))
select_loop-Ends (ready true false ∷ more) false false p few =
    Ends-a false (select_loop more true false) (select_loop-Ends more true false p (omega arith))
select_loop-Ends (ready false true ∷ more) false false p few =
    Ends-b false (select_loop more false true) (select_loop-Ends more false true p.1 (omega arith))
select_loop-Ends (ready false false ∷ more) false false p few = absurd (cc p.0)

found :
    (r : Option (List Act))
    → Ends false false r
    → (acts : List Act) × (r ≡ some acts)
      × (closes ra acts ≡ 1)
      × (closes rb acts ≡ 1)
      × (reads ra acts ≤ 1)
      × (reads rb acts ≤ 1)
found none e = absurd e
found (some acts) e = (acts, refl, omega arith, omega arith, omega arith, omega arith)

-- Whatever the two pipes and the clock do, two answers at most end the loops around select and poll, if
-- each answer in time names a pipe that is still read. The two loops do the same on the same answers,
-- they read each pipe once at most, and close each exactly once.
pub select-poll :
    (answers : List Answer)
    → IsPromised answers false false
    → 2 ≤ length answers
    → (acts : List Act) × (select_loop answers false false ≡ some acts)
      × (poll_loop answers (some ra) (some rb) 2 ≡ some acts)
      × (closes ra acts ≡ 1)
      × (closes rb acts ≡ 1)
      × (reads ra acts ≤ 1)
      × (reads rb acts ≤ 1)
select-poll answers promised two =
    let (acts, run, ca, cb, na, nb) =
      found (select_loop answers false false) (select_loop-Ends answers false false promised two) in
    (acts, run, poll_loop-select_loop answers false false ∙ run, ca, cb, na, nb)
