-- ===== src/Sockets/Exchange.antt =====
-- The exchange of section_tcp in exercises/26_sockets/sockets.c.
use c_programming.Prelude.{
  ℕ, ◌+◌, ◌≤◌, ◌≡◌, refl, sym, ap, ◌∙◌, some, List, [], ◌∷◌, ◌++◌, length, length-append, arith,
}
use mathlib.Core.List.{append-nil}
use c_programming.Prelude.Texts.{Text, bytes}
use c_programming.Sockets.{
  arriving, stream, frame, send_msg, recv_msg, connection, buffer_size, echo_of, serve_one, ask_one,
  exchange,
}
use c_programming.Sockets.Framing.{recv_msg-frame, take_long}

-- Messages whose echo fits in the buffer of the client.
abbrev pub Short : List Text → Type 0
Short [] = Unit {0}
Short (msg ∷ msgs) = (length msg ≤ 56) × Short msgs

abbrev pub echoes : List Text → List (Text × Text)
echoes [] = []
echoes (msg ∷ msgs) = (msg, bytes "[echo] " ++ msg) ∷ echoes msgs

module _ (more_server more_client : ℕ → ℕ) where
  ask_one-echoed :
      (msg : Text) (t u : ℕ)
      → length msg ≤ 56
      → (t' u' : ℕ) × (ask_one
            (arriving more_server)
            (arriving more_client)
            msg
            (connection (stream [] t) (stream [] u))
          ≡ some (bytes "[echo] " ++ msg, connection (stream [] t') (stream [] u')))
  unfolding ask_one serve_one send_msg
  ask_one-echoed msg t u short =
      let echo = bytes "[echo] " ++ msg in
      let size : length echo ≡ 7 + length msg = length-append (bytes "[echo] ") msg in
      let whole : echo_of msg ≡ echo = take_long 79 echo (omega (arith, size)) in
      let (t', asked) =
        recv_msg-frame more_server buffer_size msg [] t (omega arith) (omega arith) in
      let (u', got) =
        recv_msg-frame more_client buffer_size echo [] u (omega (arith, size))
          (omega (arith, size)) in
      let asked' =
        ap (λ l. recv_msg (arriving more_server) buffer_size (stream l t))
          (sym (append-nil (frame msg)))
        ∙ asked in
      let got' =
        ap (λ l. recv_msg (arriving more_client) buffer_size (stream l u))
          (sym (append-nil (frame echo)))
        ∙ got in
      (t', u', rw (asked', whole, got') refl)

-- However the two streams are split into reads, as long as none fails, the client gets back each of its messages of at most 56
-- bytes with the prefix of the echo, in order, and nothing is left unread.
pub exchange-echoed :
    (more_server more_client : ℕ → ℕ) (msgs : List Text) (t u : ℕ)
    → Short msgs
    → (t' u' : ℕ) × (exchange
          (arriving more_server)
          (arriving more_client)
          msgs
          (connection (stream [] t) (stream [] u))
        ≡ some (echoes msgs, connection (stream [] t') (stream [] u')))
unfolding exchange
exchange-echoed more_server more_client [] t u short = (t, u, refl)
exchange-echoed more_server more_client (msg ∷ msgs) t u (short, rest) =
    let (t1, u1, one) = ask_one-echoed more_server more_client msg t u short in
    let (t2, u2, others) = exchange-echoed more_server more_client msgs t1 u1 rest in
    (t2, u2, rw (one, others) refl)
