-- ===== src/Multiplexing/Echo.antt =====
-- `section6_echo_server` of exercises/28_io_multiplexing/io_mux.c: a server of several clients on one
-- epoll instance.
pub mod Served
use c_programming.Prelude.{
  ℕ, zero, suc, ◌+◌, ◌-◌, ◌≡◌, Bool, true, false, Option, none, some, List, [], ◌∷◌, ◌++◌,
  if◌then◌else◌, ◌==◌, ◌&&◌, ◌||◌,
}
use c_programming.Prelude.Texts.{Text}

abbrev pub num_clients : ℕ
num_clients = 3

-- What an event brings: the connections that accept answers until there are no more, or what `read`
-- answers on a connection (nothing: the end or an error) and whether the peer has hung up. Or
-- `epoll_wait` answers none in time, or an error. The events of one call come one after the other.
pub data Input : Type 0 where
  accepts : (fds : List ℕ) → Input
  client : (fd : ℕ) (nr : Text) (hung_up : Bool) → Input
  idle : Input
  broken : Input

pub data Act : Type 0 where
  accepted : (fd active : ℕ) → Act
  heard : (fd : ℕ) (text : Text) → Act
  echoed : (fd : ℕ) (text : Text) → Act
  closed : (fd active : ℕ) → Act

pub data Stop : Type 0 where
  done : Stop
  idle_timeout : Stop
  error : Stop

-- The connections registered with epoll, and the variables of the loop.
pub record Server : Type 0 where
  pub clients : List ℕ
  pub active : ℕ
  pub total_seen : ℕ

abbrev pub start : Server
start = record { clients = []; active = 0; total_seen = 0 }

abbrev pub Result : Type 0
Result = List Act × Stop × Server

abbrev pub before : List Act → Option Result → Option Result
before acts none = none
before acts (some (rest, stop, t)) = some (acts ++ rest, stop, t)

unfoldable pub accept_all : List ℕ → Server → List Act × Server
accept_all [] s = ([], s)
accept_all (fd ∷ fds) s =
    let s' : Server = record {
      clients = fd ∷ s.clients;
      active = s.active + 1;
      total_seen = s.total_seen + 1;
    } in
    let (acts, t) = accept_all fds s' in (accepted fd s'.active ∷ acts, t)

abbrev pub remove : ℕ → List ℕ → List ℕ
remove fd [] = []
remove fd (c ∷ cs) = if c == fd then cs else c ∷ remove fd cs

abbrev pub is_empty : Text → Bool
is_empty [] = true
is_empty (c ∷ t) = false

abbrev pub drop_client : ℕ → Server → Server
drop_client fd s = record {
  clients = remove fd s.clients;
  active = s.active - 1;
  total_seen = s.total_seen;
}

-- The reads and writes on a connection.
abbrev pub talk : ℕ → Text → List Act
talk fd nr = heard fd nr ∷ (if is_empty nr then [] else echoed fd nr ∷ [])

-- The loop on the inputs listed; `none` waits for more.
unfoldable pub serve : List Input → Server → Option Result
unfolding accept_all
serve [] s = none
serve (idle ∷ more) s = some ([], idle_timeout, s)
serve (broken ∷ more) s = some ([], error, s)
serve (accepts fds ∷ more) s = let (acts, t) = accept_all fds s in before acts (serve more t)
serve (client fd nr hung_up ∷ more) s =
    let leaves = is_empty nr || hung_up in
    let t = if leaves then drop_client fd s else s in
    let acts = if leaves then talk fd nr ++ closed fd t.active ∷ [] else talk fd nr in
    let rest = before acts (serve more t) in
    if leaves && (t.active == 0) && (t.total_seen == num_clients)
    then some (acts, done, t)
    else rest
