-- ===== src/Multiplexing/Echo/Served.antt =====
-- The echo server of exercises/28_io_multiplexing/io_mux.c keeps count of its clients, answers each with
-- its own words, and ends when all have gone.
use c_programming.Prelude.{
  ℕ, ◌+◌, ◌≡◌, refl, sym, ap, ◌∙◌, Bool, true, false, Option, none, some, List, [], ◌∷◌, ◌++◌,
  if◌then◌else◌, ◌==◌, ◌&&◌, ◌||◌, arith, length, Bool-cases, inl, inr,
}
use mathlib.Core.List.{append_assoc}
use c_programming.Prelude.Texts.{Text}
use c_programming.Multiplexing.Echo.{
  num_clients, Input, accepts, client, idle, broken, Act, accepted, heard, echoed, closed, Stop,
  done, idle_timeout, error, Server, start, Result, before, accept_all, remove, is_empty,
  drop_client, talk, serve,
}

abbrev pub member : ℕ → List ℕ → Bool
member fd [] = false
member fd (c ∷ cs) = if c == fd then true else member fd cs

-- What the system promises: an event on a connection is on one that is registered.
abbrev pub IsPromised : List Input → Server → Type 0
IsPromised [] s = Unit
IsPromised (idle ∷ more) s = Unit
IsPromised (broken ∷ more) s = Unit
IsPromised (accepts fds ∷ more) s = IsPromised more (accept_all fds s).1
IsPromised (client fd nr hung_up ∷ more) s =
    (member fd s.clients ≡ true)
    × IsPromised more (if is_empty nr || hung_up then drop_client fd s else s)

abbrev pub count_accepted : List Act → ℕ
count_accepted [] = 0
count_accepted (accepted fd n ∷ l) = count_accepted l + 1
count_accepted (heard fd t ∷ l) = count_accepted l
count_accepted (echoed fd t ∷ l) = count_accepted l
count_accepted (closed fd n ∷ l) = count_accepted l

abbrev pub count_closed : List Act → ℕ
count_closed [] = 0
count_closed (accepted fd n ∷ l) = count_closed l
count_closed (heard fd t ∷ l) = count_closed l
count_closed (echoed fd t ∷ l) = count_closed l
count_closed (closed fd n ∷ l) = count_closed l + 1

-- All that was read from a connection, and all that was written to it.
abbrev pub all_heard : ℕ → List Act → Text
all_heard fd [] = []
all_heard fd (accepted c n ∷ l) = all_heard fd l
all_heard fd (heard c t ∷ l) = if c == fd then t ++ all_heard fd l else all_heard fd l
all_heard fd (echoed c t ∷ l) = all_heard fd l
all_heard fd (closed c n ∷ l) = all_heard fd l

abbrev pub all_echoed : ℕ → List Act → Text
all_echoed fd [] = []
all_echoed fd (accepted c n ∷ l) = all_echoed fd l
all_echoed fd (heard c t ∷ l) = all_echoed fd l
all_echoed fd (echoed c t ∷ l) = if c == fd then t ++ all_echoed fd l else all_echoed fd l
all_echoed fd (closed c n ∷ l) = all_echoed fd l

-- The acts between two states.
record Between (s t : Server) (acts : List Act) : Type 0 where
  counted : t.active ≡ length t.clients
  seen : t.total_seen ≡ s.total_seen + count_accepted acts
  kept : length s.clients + count_accepted acts ≡ length t.clients + count_closed acts
  echo : (fd : ℕ) → all_echoed fd acts ≡ all_heard fd acts

length-remove : (fd : ℕ) (cs : List ℕ) → member fd cs ≡ true → length (remove fd cs) + 1 ≡ length cs
length-remove fd [] m = absurd (cc)
length-remove fd (c ∷ cs) m = elim (Bool-cases (c == fd)) [
  | inl here ↦ rw here (omega arith)
  | inr there ↦ let m' = rw there at m in rw there (omega (arith, length-remove fd cs m'))
]

none-Between : (s : Server) → s.active ≡ length s.clients → Between s s []
none-Between s e = record { counted = e; seen = omega arith; kept = omega arith; echo = λ fd. refl }

accepted_more :
    (xs ys : List Act) → count_accepted (xs ++ ys) ≡ count_accepted xs + count_accepted ys
accepted_more [] ys = omega arith
accepted_more (accepted fd n ∷ l) ys = omega (arith, accepted_more l ys)
accepted_more (heard fd t ∷ l) ys = accepted_more l ys
accepted_more (echoed fd t ∷ l) ys = accepted_more l ys
accepted_more (closed fd n ∷ l) ys = accepted_more l ys

closed_more : (xs ys : List Act) → count_closed (xs ++ ys) ≡ count_closed xs + count_closed ys
closed_more [] ys = omega arith
closed_more (accepted fd n ∷ l) ys = closed_more l ys
closed_more (heard fd t ∷ l) ys = closed_more l ys
closed_more (echoed fd t ∷ l) ys = closed_more l ys
closed_more (closed fd n ∷ l) ys = omega (arith, closed_more l ys)

heard_more :
    (fd : ℕ) (xs ys : List Act) → all_heard fd (xs ++ ys) ≡ all_heard fd xs ++ all_heard fd ys
heard_more fd [] ys = refl
heard_more fd (accepted c n ∷ l) ys = heard_more fd l ys
heard_more fd (heard c t ∷ l) ys = elim (Bool-cases (c == fd)) [
  | inl e ↦ rw e (
      ap (λ r. t ++ r) (heard_more fd l ys)
      ∙ sym (append_assoc t (all_heard fd l) (all_heard fd ys)))
  | inr e ↦ rw e (heard_more fd l ys)
]
heard_more fd (echoed c t ∷ l) ys = heard_more fd l ys
heard_more fd (closed c n ∷ l) ys = heard_more fd l ys

echoed_more :
    (fd : ℕ) (xs ys : List Act) → all_echoed fd (xs ++ ys) ≡ all_echoed fd xs ++ all_echoed fd ys
echoed_more fd [] ys = refl
echoed_more fd (accepted c n ∷ l) ys = echoed_more fd l ys
echoed_more fd (echoed c t ∷ l) ys = elim (Bool-cases (c == fd)) [
  | inl e ↦ rw e (
      ap (λ r. t ++ r) (echoed_more fd l ys)
      ∙ sym (append_assoc t (all_echoed fd l) (all_echoed fd ys)))
  | inr e ↦ rw e (echoed_more fd l ys)
]
echoed_more fd (heard c t ∷ l) ys = echoed_more fd l ys
echoed_more fd (closed c n ∷ l) ys = echoed_more fd l ys

Between-trans :
    (s t u : Server) (xs ys : List Act) → Between s t xs → Between t u ys → Between s u (xs ++ ys)
Between-trans s t u xs ys p q = record {
  counted = q.counted;
  seen = omega (arith, p.seen, q.seen, accepted_more xs ys);
  kept = omega (arith, p.kept, q.kept, accepted_more xs ys, closed_more xs ys);
  echo = λ fd.
      echoed_more fd xs ys
      ∙ ap (λ x. x ++ all_echoed fd ys) (p.echo fd)
      ∙ ap (λ x. all_heard fd xs ++ x) (q.echo fd)
      ∙ sym (heard_more fd xs ys);
}

accept_all-Between :
    (fds : List ℕ) (s : Server)
    → s.active ≡ length s.clients
    → Between s (accept_all fds s).1 (accept_all fds s).0
unfolding accept_all
accept_all-Between [] s e = none-Between s e
accept_all-Between (fd ∷ fds) s e =
    let s' : Server = record {
      clients = fd ∷ s.clients;
      active = s.active + 1;
      total_seen = s.total_seen + 1;
    } in
    let one : Between s s' (accepted fd s'.active ∷ []) = record {
      counted = omega arith;
      seen = omega arith;
      kept = omega arith;
      echo = λ c. refl;
    } in
    Between-trans s s' _ (accepted fd s'.active ∷ []) _ one
      (accept_all-Between fds s' (omega arith))

talk-Between :
    (fd : ℕ) (nr : Text) (s : Server) → s.active ≡ length s.clients → Between s s (talk fd nr)
talk-Between fd [] s e = record {
  counted = e;
  seen = omega arith;
  kept = omega arith;
  echo = λ c. elim (Bool-cases (fd == c)) [ inl h ↦ rw h refl | inr h ↦ rw h refl ];
}
talk-Between fd (x ∷ nr) s e = record {
  counted = e;
  seen = omega arith;
  kept = omega arith;
  echo = λ c. elim (Bool-cases (fd == c)) [ inl h ↦ rw h refl | inr h ↦ rw h refl ];
}

leave-Between :
    (fd : ℕ) (nr : Text) (s : Server)
    → s.active ≡ length s.clients
    → member fd s.clients ≡ true
    → Between s (drop_client fd s) (talk fd nr ++ closed fd (drop_client fd s).active ∷ [])
leave-Between fd nr s e m =
    let fewer = length-remove fd s.clients m in
    Between-trans s s (drop_client fd s) (talk fd nr) _ (talk-Between fd nr s e) (record {
      counted = omega (arith, fewer);
      seen = omega arith;
      kept = omega (arith, fewer);
      echo = λ c. refl;
    })

abbrev is_done : Stop → Bool
is_done done = true
is_done idle_timeout = false
is_done error = false

abbrev Ends : Server → Option Result → Type 0
Ends s none = ⊥
Ends s (some (acts, stop, t)) =
    Between s t acts
    × (if is_done stop then (t.active ≡ 0) × (t.total_seen ≡ num_clients) else Unit)

Ends-before :
    (s t : Server) (acts : List Act) (r : Option Result)
    → Between s t acts
    → Ends t r
    → Ends s (before acts r)
Ends-before s t acts none b e = e
Ends-before s t acts (some (rest, stop, u)) b e = (Between-trans s t u acts rest b e.0, e.1)

-- The last client may have gone.
ends_now :
    (s t : Server) (acts : List Act) (r : Option Result)
    → Between s t acts
    → Ends s r
    → (over : Bool) → ((t.active == 0) && (t.total_seen == num_clients)) ≡ over
    → Ends s (if over then some (acts, done, t) else r)
ends_now s t acts r b e true over = (b, (ground arith, ground arith))
ends_now s t acts r b e false over = e

serve-Ends :
    (inputs : List Input) (s : Server)
    → s.active ≡ length s.clients
    → IsPromised inputs s
    → Ends s (serve (inputs ++ idle ∷ []) s)
unfolding serve
serve-Ends [] s e p = (none-Between s e, tt)
serve-Ends (idle ∷ more) s e p = (none-Between s e, tt)
serve-Ends (broken ∷ more) s e p = (none-Between s e, tt)
serve-Ends (accepts fds ∷ more) s e p =
    let b = accept_all-Between fds s e in
    Ends-before s (accept_all fds s).1 (accept_all fds s).0 _ b
      (serve-Ends more (accept_all fds s).1 b.counted p)
serve-Ends (client fd nr hung_up ∷ more) s e p = elim (Bool-cases (is_empty nr || hung_up)) [
  | inr stays ↦ rw stays (
      Ends-before s s (talk fd nr) _ (talk-Between fd nr s e)
        (serve-Ends more s e (rw stays at p.1)))
  | inl leaves ↦
      let t = drop_client fd s in
      let b = leave-Between fd nr s e p.0 in
      rw leaves (
        ends_now s t _ _ b (Ends-before s t _ _ b (serve-Ends more t b.counted (rw leaves at p.1)))
          ((t.active == 0) && (t.total_seen == num_clients)) refl)
]

-- What the server has done when it stops.
pub record Served (acts : List Act) (stop : Stop) (t : Server) : Type 0 where
  pub counted : t.active ≡ length t.clients
  pub seen : t.total_seen ≡ count_accepted acts
  pub left : count_accepted acts ≡ length t.clients + count_closed acts
  pub echo : (fd : ℕ) → all_echoed fd acts ≡ all_heard fd acts
  pub over :
      if is_done stop
      then (count_accepted acts ≡ num_clients) × (count_closed acts ≡ num_clients)
      else Unit

over_lem :
    (acts : List Act) (stop : Stop) (t : Server)
    → Between start t acts
    → (if is_done stop then (t.active ≡ 0) × (t.total_seen ≡ num_clients) else Unit)
    → if is_done stop
      then (count_accepted acts ≡ num_clients) × (count_closed acts ≡ num_clients)
      else Unit
over_lem acts done t b e = (omega (arith, b.seen), omega (arith, b.seen, b.kept, b.counted))
over_lem acts idle_timeout t b e = tt
over_lem acts error t b e = tt

found :
    (r : Option Result)
    → Ends start r
    → (acts : List Act) × (stop : Stop) × (t : Server) × (r ≡ some (acts, stop, t))
      × Served acts stop t
found none e = absurd e
found (some (acts, stop, t)) e = (
  acts,
  stop,
  t,
  refl,
  record {
    counted = e.0.counted;
    seen = omega (arith, e.0.seen);
    left = omega (arith, e.0.kept);
    echo = e.0.echo;
    over = over_lem acts stop t e.0 e.1;
  },
)

-- On any events, each on a connection that is registered, the server stops at the latest when none
-- comes any more. `active` is then the number of connections that are open, every other one that it
-- accepted was closed, and what it has written to a connection is what it has read from there. If it
-- stops because its clients have gone, it has accepted three and closed three.
pub serve-Served :
    (inputs : List Input)
    → IsPromised inputs start
    → (acts : List Act) × (stop : Stop) × (t : Server) × (serve (inputs ++ idle ∷ []) start
        ≡ some (acts, stop, t))
      × Served acts stop t
serve-Served inputs p = found (serve (inputs ++ idle ∷ []) start) (serve-Ends inputs start refl p)
