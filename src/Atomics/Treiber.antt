-- ===== src/Atomics/Treiber.antt =====
-- The lock-free stack of exercises/29_atomics/atomics.c: `lf_push` and `lf_pop` by any number of
-- threads, a shared access at a time. A thread makes one call; one that makes several in the exercise
-- is as many here. No node is pushed twice, as in `section6_lockfree_stack` (the ABA problem that the
-- exercise names needs such a node).
pub mod Linear
mod Tests
use c_programming.Prelude.{
  ℕ, zero, suc, ◌≡◌, Bool, Option, none, some, List, [], ◌∷◌, if◌then◌else◌, ◌==◌,
}
use c_programming.Interleave.{Turn, team}

-- `LFStack`, and the field `next` of each node. A node stands for its address.
pub record Memory : Type 0 where
  pub head : Option ℕ
  pub next : ℕ → Option ℕ

abbrev pub put_next : (ℕ → Option ℕ) → ℕ → Option ℕ → ℕ → Option ℕ
put_next next n p i = if i == n then p else next i

-- Where a call stands, with its local variables.
pub data Pc : Type 0 where
  pushing : (node : ℕ) → Pc  -- before the load of `lf_push`
  push_loaded : (node : ℕ) (old_head : Option ℕ) → Pc
  push_linked : (node : ℕ) (old_head : Option ℕ) → Pc  -- before the compare-exchange
  pushed : Pc
  popping : Pc  -- before the load of `lf_pop`
  pop_loaded : (old_head : ℕ) → Pc
  pop_read : (old_head : ℕ) (new_head : Option ℕ) → Pc  -- before the compare-exchange
  popped : (node : Option ℕ) → Pc

-- What a step does to the stack, seen from outside.
pub data Event : Type 0 where
  quiet : Event
  push : (node : ℕ) → Event
  pop : (node : ℕ) → Event
  empty : Event

-- The weak compare-exchange may fail whatever the head is.
pub data Move (m : Memory) : Pc → Memory → Pc → Event → Type 0 where
  load_push : (n : ℕ) → Move m (pushing n) m (push_loaded n m.head) quiet
  link :
      (n : ℕ) (old : Option ℕ)
      → Move m
          (push_loaded n old)
          (record m { next = put_next m.next n old })
          (push_linked n old)
          quiet
  push_done :
      (n : ℕ) (old : Option ℕ)
      → m.head ≡ old
      → Move m (push_linked n old) (record m { head = some n }) pushed (push n)
  push_again : (n : ℕ) (old : Option ℕ) → Move m (push_linked n old) m (pushing n) quiet
  load_null : m.head ≡ none → Move m popping m (popped none) empty
  load_pop : (o : ℕ) → m.head ≡ some o → Move m popping m (pop_loaded o) quiet
  read : (o : ℕ) → Move m (pop_loaded o) m (pop_read o (m.next o)) quiet
  pop_done :
      (o : ℕ) (new : Option ℕ)
      → m.head ≡ some o
      → Move m (pop_read o new) (record m { head = new }) (popped (some o)) (pop o)
  pop_again : (o : ℕ) (new : Option ℕ) → Move m (pop_read o new) m popping quiet

-- The events so far, the last first; quiet ones are left out.
pub record System : Type 0 where
  pub mem : Memory
  pub pcs : List Pc
  pub log : List Event

abbrev pub note : Event → List Event → List Event
note quiet log = log
note e log = e ∷ log

pub data Step (s : System) : System → Type 0 where
  turn :
      {m : Memory} {p q : Pc} {l : List Pc} {e : Event}
      → Move s.mem p m q e
      → Turn p q s.pcs l
      → Step s (record { mem = m; pcs = l; log = note e s.log })

-- One pusher for each node, and `k` poppers.
abbrev pub crew : List ℕ → ℕ → List Pc
crew [] k = team k popping
crew (n ∷ nodes) k = pushing n ∷ crew nodes k

abbrev pub start : (ℕ → Option ℕ) → List ℕ → ℕ → System
start garbage nodes k = record {
  mem = record { head = none; next = garbage };
  pcs = crew nodes k;
  log = [];
}

pub data Reach (s : System) : System → Type 0 where
  begin : Reach s s
  later : {t u : System} → Reach s t → Step t u → Reach s u

-- How often a node is in a list.
abbrev pub times : ℕ → List ℕ → ℕ
times x [] = 0
times x (n ∷ l) = if n == x then suc (times x l) else times x l

-- The events, the last first, are those of a stack on which calls take effect one after the other,
-- and the list is what it holds then, the top first.
pub data Lifo : List Event → List ℕ → Type 0 where
  nothing : Lifo [] []
  after_push : {log : List Event} {l : List ℕ} (n : ℕ) → Lifo log l → Lifo (push n ∷ log) (n ∷ l)
  after_pop : {log : List Event} {l : List ℕ} (n : ℕ) → Lifo log (n ∷ l) → Lifo (pop n ∷ log) l
  after_empty : {log : List Event} → Lifo log [] → Lifo (empty ∷ log) []

-- The nodes from `head` on, along `next`.
abbrev pub Chain : (ℕ → Option ℕ) → Option ℕ → List ℕ → Type 0
Chain next p [] = p ≡ none
Chain next p (n ∷ l) = (p ≡ some n) × Chain next (next n) l
