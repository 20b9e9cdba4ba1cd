-- ===== src/Sockets/Tests.antt =====
-- Runs of the messages of exercises/26_sockets/sockets.c, with the theorems there.
use c_programming.Prelude.{
  if◌then◌else◌, ◌==◌, none, ℕ, zero, suc, ◌≡◌, refl, Option, some, [], ◌∷◌, ◌++◌, arith,
}
use c_programming.Prelude.Texts.{Text, bytes}
use c_programming.Sockets.{
  Arrivals, arriving, Stream, stream, recv, recv_loop, recv_all, frame, recv_msg, connection,
  exchange, client_msgs,
}
use c_programming.Sockets.Framing.{Answered, recv_msg-frame, recv_msg-Answered}
use c_programming.Sockets.Exchange.{echoes, exchange-echoed}

-- Each read finds one byte, or two, or three.
abbrev uneven : ℕ → ℕ
uneven zero = 0
uneven (suc zero) = 1
uneven (suc (suc zero)) = 2
uneven (suc (suc (suc i))) = uneven i

recv_msg-frame_example :
    (t' : ℕ) × (recv_msg (arriving uneven) 64 (stream (frame (bytes "hello") ++ bytes "rest") 0)
      ≡ some (some (bytes "hello"), stream (bytes "rest") t'))
recv_msg-frame_example =
    recv_msg-frame uneven 64 (bytes "hello") (bytes "rest") 0 (omega arith) (omega arith)

-- The third read is an error.
abbrev interrupted : Arrivals
interrupted i = if i == 2 then none else some 0

-- The length claims 200 bytes, of which two follow.
abbrev cut_short : Stream
cut_short = stream (200 ∷ 97 ∷ 98 ∷ []) 0

recv_msg-Answered_example :
    (answer : Option Text) × (s' : Stream) × (recv_msg interrupted 64 cut_short ≡ some (answer, s'))
    × Answered interrupted 64 cut_short answer
recv_msg-Answered_example = recv_msg-Answered interrupted 64 cut_short (omega arith)

exchange-echoed_example :
    (t' u' : ℕ) × (exchange
        (arriving uneven)
        (arriving uneven)
        client_msgs
        (connection (stream [] 0) (stream [] 0))
      ≡ some (echoes client_msgs, connection (stream [] t') (stream [] u')))
exchange-echoed_example =
    exchange-echoed uneven uneven client_msgs 0 0 (omega arith, (omega arith, (omega arith, tt)))

abbrev copies : ℕ → Text → Text
copies zero t = []
copies (suc n) t = t ++ copies n t

-- A message of 70 bytes: the buffer gets 63 of them, and the rest is left where the next length is read.
long_left_over :
    recv_msg (arriving uneven) 64 (stream (frame (copies 7 (bytes "0123456789"))) 0)
    ≡ some (some (copies 6 (bytes "0123456789") ++ bytes "012"), stream (bytes "3456789") 33)
unfolding recv_msg recv_all recv_loop recv frame
long_left_over = refl

-- A failed read of the length gives -1 while the message is still there.
failed_read :
    recv_msg (λ _. none) 64 (stream (frame (bytes "hi")) 0)
    ≡ some (none, stream (frame (bytes "hi")) 1)
unfolding recv_msg recv_all recv_loop recv frame
failed_read = refl
