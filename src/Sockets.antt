-- ===== src/Sockets.antt =====
-- exercises/26_sockets/sockets.c: the messages of send_msg and recv_msg on a stream, and the exchange
-- of section_tcp.
pub mod Framing
pub mod Exchange
mod Tests
use c_programming.Prelude.{
  ℕ, zero, suc, ◌+◌, ◌-◌, ◌%◌, Bool, true, false, Option, none, some, List, [], ◌∷◌, ◌++◌,
  if◌then◌else◌, leb, ◌==◌, length, take, drop,
}
use c_programming.Prelude.Ints.{◌>>=◌}
use c_programming.Prelude.Texts.{Text, bytes}

-- One direction of a connection: what is sent and not yet read, and how often it has been read.
pub record Stream : Type 0 where
  pub data_left : Text
  pub reads : ℕ

abbrev pub stream : Text → ℕ → Stream
stream d t = record { data_left = d; reads = t }

-- What happens at each read: `none` is an error, `some m` finds one byte and `m` others arrived, or all
-- that is sent.
abbrev pub Arrivals : Type 0
Arrivals = ℕ → Option ℕ

-- Reads without an error.
abbrev pub arriving : (ℕ → ℕ) → Arrivals
arriving more i = some (more i)

-- `recv`: at most `n` bytes of what has arrived. Nothing is read at an error, where the result is
-- negative, and at the end of the stream, where it is 0.
abbrev pub arrived : Option ℕ → ℕ → Text → Text
arrived none n d = []
arrived (some m) n d = take n (take (suc m) d)

unfoldable pub recv : Arrivals → ℕ → Stream → Text × Stream
recv arrivals n s =
    let chunk = arrived (arrivals s.reads) n s.data_left in
    (chunk, stream (drop (length chunk) s.data_left) (s.reads + 1))

-- The loop of `recv_all`, with `left` bytes to go; `none` is out of rounds.
unfoldable pub recv_loop : Arrivals → ℕ → ℕ → Stream → Option (Text × Stream)
unfolding recv
recv_loop arrivals zero left s = none
recv_loop arrivals (suc rounds) left s =
    let (chunk, s') = recv arrivals left s in
    let rest = recv_loop arrivals rounds (left - length chunk) s' in
    if left == 0
    then some ([], s)
    else if length chunk == 0
    then some ([], s')
    else rest >>= λ (bytes, s''). some (chunk ++ bytes, s'')

-- A round for each byte, and one for the end.
unfoldable pub recv_all : Arrivals → ℕ → Stream → Option (Text × Stream)
unfolding recv_loop
recv_all arrivals n s = recv_loop arrivals (n + 1) n s

-- The bytes of a message: the length is a `uint8_t`.
unfoldable pub frame : Text → Text
frame msg = let len = length msg % 256 in len ∷ take len msg

unfoldable pub send_msg : Text → Stream → Stream
send_msg msg s = stream (s.data_left ++ frame msg) s.reads

-- A length that does not fit in the buffer is cut.
abbrev pub payload : Arrivals → ℕ → Text → Stream → Option (Option Text × Stream)
payload arrivals bufsz (len ∷ []) s =
    recv_all arrivals (if leb bufsz len then (bufsz - 1) % 256 else len) s >>= λ (buf, s').
    some (some buf, s')
payload arrivals bufsz bytes s = some (none, s)

-- `some (none, s)` is the result -1.
unfoldable pub recv_msg : Arrivals → ℕ → Stream → Option (Option Text × Stream)
recv_msg arrivals bufsz s = recv_all arrivals 1 s >>= λ (len, s'). payload arrivals bufsz len s'

-- The two directions of the connection of section_tcp.
pub record Connection : Type 0 where
  pub to_server : Stream
  pub to_client : Stream

abbrev pub connection : Stream → Stream → Connection
connection s c = record { to_server = s; to_client = c }

abbrev pub buffer_size : ℕ
buffer_size = 64

-- What both sides do with a result -1: they go on with what was in the buffer before, which the model
-- leaves out as `none`.
abbrev pub received : Option Text × Stream → Option (Text × Stream)
received (none, s) = none
received (some buf, s) = some (buf, s)

-- `snprintf(echo, sizeof echo, "[echo] %s", buf)`
abbrev pub echo_of : Text → Text
echo_of buf = take 79 (bytes "[echo] " ++ buf)

-- A round of the server: the message that it has read, and its echo sent.
unfoldable pub serve_one : Arrivals → Connection → Option (Text × Connection)
serve_one arrivals c = recv_msg arrivals buffer_size c.to_server >>= received >>= λ (buf, s).
    some (buf, connection s (send_msg (echo_of buf) c.to_client))

-- A round of the client: it waits for the echo, so the server's round lies between its two calls.
unfoldable pub ask_one : Arrivals → Arrivals → Text → Connection → Option (Text × Connection)
ask_one from_client from_server msg c =
    serve_one from_client (connection (send_msg msg c.to_server) c.to_client) >>= λ (_, c').
    recv_msg from_server buffer_size c'.to_client >>= received >>= λ (got, s).
    some (got, connection c'.to_server s)

-- The lines that the client prints: what it has sent, and what it has got.
unfoldable pub exchange :
    Arrivals → Arrivals → List Text → Connection → Option (List (Text × Text) × Connection)
exchange from_client from_server [] c = some ([], c)
exchange from_client from_server (msg ∷ msgs) c =
    ask_one from_client from_server msg c >>= λ (got, c').
    exchange from_client from_server msgs c' >>= λ (lines, c''). some ((msg, got) ∷ lines, c'')

abbrev pub client_msgs : List Text
client_msgs = bytes "hello" ∷ bytes "world" ∷ bytes "bye" ∷ []
