-- ===== src/Multiplexing/Tests.antt =====
-- Runs of the loops, and the theorems on them there.
use c_programming.Prelude.{◌≤◌, ◌≡◌, refl, true, false, some, List, [], ◌∷◌, ◌++◌, arith}
use c_programming.Prelude.Texts.{bytes}
use c_programming.Multiplexing.{
  ra, rb, Answer, ready, batch, Events, Act, got, closed, timed_out, read_from, select_loop,
  poll_loop, epoll_loop,
}
use c_programming.Multiplexing.Echo
use c_programming.Multiplexing.Echo.{Input, start, serve}
use c_programming.Multiplexing.Echo.Served.{Served, serve-Served}
use c_programming.Multiplexing.Readers.{closes, reads, select-poll}

-- The second pipe is ready first.
abbrev answers : List Answer
answers = ready false true ∷ ready true false ∷ []

select-poll_example :
    (acts : List Act) × (select_loop answers false false ≡ some acts)
    × (poll_loop answers (some ra) (some rb) 2 ≡ some acts)
    × (closes ra acts ≡ 1)
    × (closes rb acts ≡ 1)
    × (reads ra acts ≤ 1)
    × (reads rb acts ≤ 1)
select-poll_example = select-poll answers (refl, (refl, tt)) (omega arith)

-- With epoll a pipe that is not ready in time is never closed, unlike with select.
epoll_times_out :
    (epoll_loop (batch (rb ∷ []) ∷ Events.timeout ∷ []) 2
      ≡ some (got rb (read_from rb) ∷ closed rb ∷ timed_out ∷ []))
    × (select_loop (ready false true ∷ Answer.timeout ∷ []) false false
        ≡ some (got rb (read_from rb) ∷ closed rb ∷ timed_out ∷ closed ra ∷ []))
unfolding epoll_loop select_loop
epoll_times_out = (refl, refl)

-- Two clients, of which the first leaves.
abbrev inputs : List Input
inputs =
    Echo.accepts (7 ∷ 8 ∷ [])
    ∷ Echo.client 7 (bytes "ping from client 0") false
    ∷ Echo.client 8 (bytes "ping from client 1") false
    ∷ Echo.client 7 [] true
    ∷ []

serve-Served_example :
    (acts : List Echo.Act) × (stop : Echo.Stop) × (t : Echo.Server) × (serve
        (inputs ++ Echo.idle ∷ [])
        start
      ≡ some (acts, stop, t))
    × Served acts stop t
unfolding Echo.accept_all
serve-Served_example = serve-Served inputs (refl, (refl, (refl, tt)))
