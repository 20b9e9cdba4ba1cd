-- ===== src/Enums/Machine.antt =====
-- How the connection's state machine of exercises/34_enums/enums.c moves on.
use c_programming.Prelude.{Bool, true, false, List, [], ◌∷◌, arith, ℕ, ◌+◌, ◌≤◌}
use c_programming.Enums.{ConnState, ConnEvent, transitions, sm_step}
use c_programming.Enums.ConnState.{idle, connecting, connected, closing, closed}
use c_programming.Enums.ConnEvent.{send}

-- How far the connection has come.
abbrev pub stage : ConnState → ℕ
stage idle = 0
stage connecting = 1
stage connected = 2
stage closing = 3
stage closed = 4

-- 1 where an event other than SEND is accepted.
abbrev pub progress : Bool → ConnEvent → ℕ
progress true send = 0
progress true e = 1
progress false e = 0

-- The number of events other than SEND that the loop over a sequence of events accepts.
unfoldable pub progresses : ConnState → List ConnEvent → ℕ
progresses s [] = 0
progresses s (e ∷ es) = let (taken, s') = sm_step s e in progress taken e + progresses s' es

-- The state after the loop.
unfoldable pub run_events : ConnState → List ConnEvent → ConnState
run_events s [] = s
run_events s (e ∷ es) = run_events ((sm_step s e).1) es

stage-sm_step :
    (s : ConnState) (e : ConnEvent)
    → stage s + progress ((sm_step s e).0) e ≤ stage ((sm_step s e).1)
unfolding sm_step transitions
stage-sm_step s e = ground arith

stage_grows :
    (s : ConnState) (es : List ConnEvent) → stage s + progresses s es ≤ stage (run_events s es)
unfolding run_events progresses
stage_grows s [] = omega arith
stage_grows s (e ∷ es) = omega (arith, stage-sm_step s e, stage_grows ((sm_step s e).1) es)

stage_bound : (s : ConnState) → stage s ≤ 4
stage_bound s = ground arith

-- Each accepted event other than SEND takes the connection at least one stage on, and none takes it
-- back: however long the sequence, no more than four are accepted.
pub stage-run_events :
    (s : ConnState) (es : List ConnEvent)
    → (stage s + progresses s es ≤ stage (run_events s es)) × (progresses s es ≤ 4)
stage-run_events s es =
    (stage_grows s es, omega (arith, stage_grows s es, stage_bound (run_events s es)))
