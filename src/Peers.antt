-- ===== src/Peers.antt =====
-- irc/threaded_server.cpp and irc/worker.cpp: admission of TCP connections, their dispatch to the
-- worker threads, and the count of connections of each address.
-- Sockets and threads are outside: an event says what they did. The mutex of the counts makes each
-- event one step. A WebSocket comes from the address of the TCP connection that it runs over.
pub mod Counts
pub mod RoundRobin
use chatripper.Common.{
  ℕ, ◌+◌, ◌-◌, ◌%◌, Bool, true, false, Option, none, some, List, [], ◌∷◌, ◌++◌, Map, find, insert,
  remove, nat_key, nat_eqb, leb, if◌then◌else◌,
}

-- A connection at some stage: its descriptor, its address (0 if it is unknown) and its local port.
pub record Peer : Type 0 where
  pub descriptor : ℕ
  pub ip : ℕ
  pub port : ℕ
  pub worker : ℕ

pub record Server : Type 0 where
  pub active : Map ℕ ℕ
  pub max_per_ip : ℕ
  pub thread_count : ℕ
  ws_port : ℕ
  pub next_worker : ℕ
  -- `handleConnection` calls that wait in the event loops of the workers
  pub queued : List Peer
  -- handed to the WebSocket server, which has not announced them yet
  pub handshakes : List Peer
  -- the `connections` of all workers
  pub connections : List Peer
  -- handshakes that came to nothing: the socket is gone, and its count stays
  pub leaked : List Peer

-- `activeConnections[ip]`: 0 if there is no entry.
abbrev count_or_zero : Option ℕ → ℕ
count_or_zero none = 0
count_or_zero (some n) = n

unfoldable pub active_of : ℕ → Map ℕ ℕ → ℕ
active_of ip m = count_or_zero (find ip m)

-- `if (--m_activeConnections[ip] <= 0) m_activeConnections.remove(ip)`
unfoldable pub release : ℕ → Map ℕ ℕ → Map ℕ ℕ
unfolding active_of
release ip m = if leb (active_of ip m) 1 then remove ip m else insert ip (active_of ip m - 1) m

-- The round-robin dispatch.
unfoldable pub dispatch : ℕ → ℕ → ℕ → Server → Server
dispatch descriptor ip port s = record s {
  next_worker = (s.next_worker + 1) % s.thread_count;
  queued =
      s.queued
      ++ record { descriptor = descriptor; ip = ip; port = port; worker = s.next_worker } ∷ [];
}

-- `incomingConnection`; `true` means that the connection was accepted.
unfoldable pub incoming_connection : ℕ → ℕ → ℕ → Server → Server × Bool
unfolding active_of dispatch
incoming_connection descriptor ip port s =
    if nat_eqb ip 0
    then (dispatch descriptor ip port s, true)
    else if leb s.max_per_ip (active_of ip s.active)
    then (record s { active = insert ip (active_of ip s.active) s.active }, false)
    else (
      dispatch descriptor ip port
          (record s { active = insert ip (active_of ip s.active + 1) s.active }),
      true,
    )

unfoldable pub find_peer : ℕ → List Peer → Option Peer
find_peer d [] = none
find_peer d (p ∷ ps) = if nat_eqb p.descriptor d then some p else find_peer d ps

unfoldable pub remove_peer : ℕ → List Peer → List Peer
remove_peer d [] = []
remove_peer d (p ∷ ps) = if nat_eqb p.descriptor d then ps else p ∷ remove_peer d ps

-- `Worker::handleConnection`; `bound` is what `setSocketDescriptor` returned.
unfoldable handle_connection : Peer → Bool → Server → Server
unfolding release
handle_connection p bound s =
    if not_bound
    then record s { active = release p.ip s.active }
    else if nat_eqb p.port s.ws_port
    then record s { handshakes = s.handshakes ++ p ∷ [] }
    else record s { connections = s.connections ++ p ∷ [] }
  where
    not_bound : Bool
    not_bound = if bound then false else true

pub data Event : Type 0 where
  -- a TCP connection comes in: descriptor, address, local port
  arrives : ℕ → ℕ → ℕ → Event
  -- a worker takes a queued call; whether the descriptor could be used
  handled : ℕ → Bool → Event
  -- the WebSocket server announces a connection, `newConnection`
  upgraded : ℕ → Event
  -- the handshake of a WebSocket fails, or the peer goes away before it is done: `newConnection` never
  -- comes, and no slot of the program is called
  aborted : ℕ → Event
  -- the signal `disconnected` of a connection
  disconnected : ℕ → Event

unfoldable pub on_handled : ℕ → Bool → Server → Server
unfolding handle_connection find_peer remove_peer
on_handled d bound s = elim (find_peer d s.queued) [
  | none ↦ s
  | some p ↦ handle_connection p bound (record s { queued = remove_peer d s.queued })
]

unfoldable pub on_upgraded : ℕ → Server → Server
unfolding find_peer remove_peer
on_upgraded d s = elim (find_peer d s.handshakes) [
  | none ↦ s
  | some p ↦ record s {
    handshakes = remove_peer d s.handshakes;
    connections = s.connections ++ p ∷ [];
  }
]

-- Nothing releases the count.
unfoldable pub on_aborted : ℕ → Server → Server
unfolding find_peer remove_peer
on_aborted d s = elim (find_peer d s.handshakes) [
  | none ↦ s
  | some p ↦ record s { handshakes = remove_peer d s.handshakes; leaked = s.leaked ++ p ∷ [] }
]

unfoldable pub on_disconnected : ℕ → Server → Server
unfolding release find_peer remove_peer
on_disconnected d s = elim (find_peer d s.connections) [
  | none ↦ s
  | some p ↦ record s { active = release p.ip s.active; connections = remove_peer d s.connections }
]

unfoldable pub step : Server → Event → Server
unfolding incoming_connection on_handled on_upgraded on_aborted on_disconnected
step s (arrives d ip port) = (incoming_connection d ip port s).0
step s (handled d bound) = on_handled d bound s
step s (upgraded d) = on_upgraded d s
step s (aborted d) = on_aborted d s
step s (disconnected d) = on_disconnected d s

unfoldable pub run : Server → List Event → Server
run s [] = s
run s (e ∷ es) = run (step s e) es

-- `ThreadedServer(thread_count, max_per_ip)`
unfoldable pub init : ℕ → ℕ → ℕ → Server
init thread_count max_per_ip ws_port = record {
  active = [];
  max_per_ip = max_per_ip;
  thread_count = thread_count;
  ws_port = ws_port;
  next_worker = 0;
  queued = [];
  handshakes = [];
  connections = [];
  leaked = [];
}
