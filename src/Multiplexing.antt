-- ===== src/Multiplexing.antt =====
-- exercises/28_io_multiplexing/io_mux.c: the loops around select, poll and epoll. What the system
-- answers to each call is an argument.
pub mod Readers
pub mod Echo
mod Tests
use c_programming.Prelude.{
  ℕ, zero, suc, ◌+◌, ◌-◌, ◌≡◌, Bool, true, false, Option, none, some, List, [], ◌∷◌, ◌++◌,
  if◌then◌else◌, ltb, ◌==◌, ◌&&◌, not, take,
}
use c_programming.Prelude.Texts.{Text, bytes}

-- The read ends of the two pipes of `two_writers`.
pub data Pipe : Type 0 where
  ra rb : Pipe

-- What `select` or `poll` answers: nothing in time, an error, or which of the pipes can be read.
pub data Answer : Type 0 where
  timeout : Answer
  error : Answer
  ready : (a b : Bool) → Answer

pub data Act : Type 0 where
  timed_out : Act
  complained : Act
  got : Pipe → Text → Act
  closed : Pipe → Act

-- `read` of a pipe whose writer has written all of its message.
abbrev pub message : Pipe → Text
message ra = bytes "from-A"
message rb = bytes "from-B"

abbrev pub read_from : Pipe → Text
read_from p = take 31 (message p)

-- The body of the loop for one pipe: what it does, and whether the pipe is done afterwards.
abbrev pub serve : Pipe → Bool → List Act → List Act
serve p true rest = got p (read_from p) ∷ closed p ∷ rest
serve p false rest = rest

-- After the loop: a pipe that is not done is closed.
abbrev pub close_left : Bool → Bool → List Act
close_left done_a done_b =
    (if done_a then [] else closed ra ∷ []) ++ (if done_b then [] else closed rb ∷ [])

-- The loop of `section2_select` and what follows it, on the answers listed; `none` waits for more.
unfoldable pub select_loop : List Answer → Bool → Bool → Option (List Act)
select_loop [] done_a done_b = if done_a && done_b then some [] else none
select_loop (ans ∷ more) done_a done_b = elim (done_a && done_b) [
  | true ↦ some []
  | false ↦ elim ans [
    | timeout ↦ some (timed_out ∷ close_left done_a done_b)
    | error ↦ some (complained ∷ close_left done_a done_b)
    | ready a b ↦
        let now_a = not done_a && a in
        let now_b = not done_b && b in
        elim (select_loop more (if now_a then true else done_a) (if now_b then true else done_b)) [
          | none ↦ none
          | some rest ↦ some (serve ra now_a (serve rb now_b rest))
        ]
  ]
]

-- A slot of the array of `section3_poll`: `none` is the descriptor -1, which poll ignores.
abbrev pub Slot : Type 0
Slot = Option Pipe

-- `fds[i].revents & POLLIN`: never set for a slot that poll ignores.
abbrev pub revents : Slot → Bool → Bool
revents none r = false
revents (some p) r = r

-- One round of the inner `for`: the slot, `remaining` and the acts.
abbrev pub poll_slot : Slot → Bool → ℕ → Slot × ℕ × (List Act → List Act)
poll_slot none r remaining = (none, remaining, λ rest. rest)
poll_slot (some p) r remaining =
    if ltb 0 remaining && revents (some p) r
    then (none, remaining - 1, λ rest. got p (read_from p) ∷ closed p ∷ rest)
    else (some p, remaining, λ rest. rest)

abbrev pub close_slots : Slot → Slot → List Act
close_slots none none = []
close_slots (some p) none = closed p ∷ []
close_slots none (some q) = closed q ∷ []
close_slots (some p) (some q) = closed p ∷ closed q ∷ []

unfoldable pub poll_loop : List Answer → Slot → Slot → ℕ → Option (List Act)
poll_loop [] s0 s1 remaining = if ltb 0 remaining then none else some (close_slots s0 s1)
poll_loop (ans ∷ more) s0 s1 remaining = elim (ltb 0 remaining) [
  | false ↦ some (close_slots s0 s1)
  | true ↦ elim ans [
    | timeout ↦ some (timed_out ∷ close_slots s0 s1)
    | error ↦ some (complained ∷ close_slots s0 s1)
    | ready a b ↦
        let (t0, left, acts0) = poll_slot s0 a remaining in
        let (t1, left', acts1) = poll_slot s1 b left in
        elim (poll_loop more t0 t1 left') [ none ↦ none | some rest ↦ some (acts0 (acts1 rest)) ]
  ]
]

-- What `epoll_wait` answers: the pipes that are ready, in any order.
pub data Events : Type 0 where
  timeout : Events
  error : Events
  batch : List Pipe → Events

abbrev pub serve_batch : List Pipe → List Act → List Act
serve_batch [] rest = rest
serve_batch (p ∷ ps) rest = got p (read_from p) ∷ closed p ∷ serve_batch ps rest

abbrev pub less : ℕ → List Pipe → ℕ
less n [] = n
less n (p ∷ ps) = less (n - 1) ps

-- The loop of `section4_epoll`; nothing closes a pipe after it.
unfoldable pub epoll_loop : List Events → ℕ → Option (List Act)
epoll_loop [] remaining = if ltb 0 remaining then none else some []
epoll_loop (ans ∷ more) remaining = elim (ltb 0 remaining) [
  | false ↦ some []
  | true ↦ elim ans [
    | timeout ↦ some (timed_out ∷ [])
    | error ↦ some (complained ∷ [])
    | batch ps ↦ elim (epoll_loop more (less remaining ps)) [
      | none ↦ none
      | some rest ↦ some (serve_batch ps rest)
    ]
  ]
]
