-- ===== src/Relay.antt =====
-- packages/hub/src/relay-core.ts: the relay that pairs a worker's socket with its env's daemon. A socket is
-- named by a text; a frame that a socket gets and a close that the code asks for are recorded. The refs are
-- updated by fibers that run at once, as they never wait.
use saku.Base.{
  ℕ, String, Bool, true, false, not, ◌&&◌, Option, none, some, List, [], ◌∷◌, ◌++◌, if◌then◌else◌,
  or_else, str_eq, filter, map, mem?, ◌==◌,
}
use saku.Base.Map.{Map, get, put, remove, keys, values}
pub mod Pairing
pub mod Tests

abbrev pub Socket : Type 0
Socket = String

pub record Relay : Type 0 where
  pub envs : Map Socket
  pub waiting : Map (List Socket)
  pub workers : Map Socket
  pub buffers : Map (List String)
  pub piped : List (Socket × Socket)
  pub sent : List (Socket × String)
  pub closed : List Socket
  pub failures : List (Socket × String)

abbrev pub empty_relay : Relay
empty_relay = record {
  envs = [];
  waiting = [];
  workers = [];
  buffers = [];
  piped = [];
  sent = [];
  closed = [];
  failures = [];
}

abbrev pub close_socket : Relay → Socket → Relay
close_socket s socket = record s { closed = s.closed ++ socket ∷ [] }

abbrev pub fail_socket : Relay → Socket → String → Relay
fail_socket s socket message = record s { failures = s.failures ++ (socket, message) ∷ [] }

-- A previous socket of the same role dies when another one takes its place.
abbrev pub close_previous : Relay → Option Socket → Socket → Relay
close_previous s none socket = s
close_previous s (some previous) socket =
    if str_eq previous socket then s else close_socket s previous

abbrev pub remove_if : String → Socket → Map Socket → Map Socket
remove_if env_id socket m = elim (get env_id m) [
  | none ↦ m
  | some other ↦ if str_eq other socket then remove env_id m else m
]

unfoldable pub unregister : Relay → String → Socket → Relay
unregister s env_id socket = record s { envs = remove_if env_id socket s.envs }

abbrev pub without : Socket → List Socket → List Socket
without socket sockets = filter (λ (other : Socket). not (str_eq other socket)) sockets

unfoldable pub detach_from_worker : Relay → String → Socket → Relay
detach_from_worker s env_id socket = elim (get env_id s.waiting) [
  | none ↦ s
  | some sockets ↦
      if mem? socket sockets
      then record s { waiting = put env_id (without socket sockets) s.waiting }
      else s
]

-- The frames that a worker sent while it waited go to the daemon, in order.
abbrev pub flush : Relay → Socket → Socket → Relay
flush s worker daemon = elim (get worker s.buffers) [
  | none ↦ s
  | some frames ↦ record s {
    buffers = remove worker s.buffers;
    sent = s.sent ++ map (λ (frame : String). (daemon, frame)) frames;
  }
]

unfoldable pub pipe_both : Relay → String → Socket → Socket → Relay
pipe_both s env_id worker daemon =
    let flushed = flush s worker daemon in
    let alone = close_previous flushed (get env_id flushed.workers) worker in
    record alone {
      workers = put env_id worker alone.workers;
      piped = alone.piped ++ (worker, daemon) ∷ [];
    }

-- The worker's end of a pipe closes.
unfoldable pub worker_closed : Relay → String → Socket → Socket → Relay
worker_closed s env_id worker daemon =
    let detached = detach_from_worker (close_socket s daemon) env_id worker in
    close_socket (record detached { workers = remove_if env_id worker detached.workers }) daemon

-- The daemon's end of a pipe closes.
unfoldable pub daemon_closed : Relay → String → Socket → Socket → Relay
daemon_closed s env_id worker daemon =
    close_socket (unregister (close_socket s worker) env_id daemon) worker

-- `Set.prototype.add`
abbrev pub add : Socket → List Socket → List Socket
add socket sockets = if mem? socket sockets then sockets else sockets ++ socket ∷ []

unfoldable pub attach : Relay → String → Socket → Relay
attach s env_id socket = elim (get env_id s.envs) [
  | some daemon ↦ pipe_both s env_id socket daemon
  | none ↦ record s {
    buffers = put socket [] s.buffers;
    waiting = put env_id (add socket (or_else (get env_id s.waiting) [])) s.waiting;
  }
]

-- A frame of a socket that waits.
unfoldable pub buffer_frame : Relay → Socket → String → Relay
buffer_frame s socket frame = elim (get socket s.buffers) [
  | none ↦ s
  | some frames ↦ record s { buffers = put socket (frames ++ frame ∷ []) s.buffers }
]

-- A socket that waits closes.
unfoldable pub waiter_closed : Relay → Socket → Relay
waiter_closed s socket = record s { buffers = remove socket s.buffers }

-- The grace window of a socket that waits ends.
unfoldable pub grace_ended : Relay → String → Socket → Relay
grace_ended s env_id socket = elim (get env_id s.envs) [
  | some _ ↦ s
  | none ↦
      fail_socket
        (record s {
          buffers = remove socket s.buffers;
          waiting = put env_id (without socket (or_else (get env_id s.waiting) [])) s.waiting;
        })
        socket "no env registered"
]

unfoldable pub refuse_all : Relay → List Socket → Relay
refuse_all s [] = s
refuse_all s (socket ∷ sockets) = refuse_all (fail_socket s socket "already attached") sockets

-- The first that waits is paired, the others are refused.
unfoldable pub pair_waiting : Relay → String → Socket → List Socket → Relay
pair_waiting s env_id daemon [] = s
pair_waiting s env_id daemon (worker ∷ others) =
    refuse_all (pipe_both s env_id worker daemon) others

unfoldable pub register : Relay → String → Socket → Relay
register s env_id socket =
    let closed = close_previous s (get env_id s.envs) socket in
    let registered = record closed { envs = put env_id socket closed.envs } in
    elim (get env_id registered.waiting) [
      | none ↦ registered
      | some sockets ↦
          let paired = pair_waiting registered env_id socket sockets in
          record paired { waiting = put env_id [] paired.waiting }
    ]

-- The first frame of a connection, decoded; the version and the token are checked before anything else.
pub data FirstFrame : Type 0 where
  relay_hello relay_attach : (env_id : String) → (version : ℕ) → (token : String) → FirstFrame
  undecodable foreign : FirstFrame

module _ (env_version : ℕ) (expected : String) where
  abbrev pub checked : Relay → Socket → ℕ → String → Relay → Relay
  checked s socket version token next =
      if not (version == env_version)
      then fail_socket s socket "relay version mismatch"
      else if not (str_eq token expected)
      then fail_socket s socket "invalid relay token"
      else next

  unfoldable pub handle_first : Relay → Socket → FirstFrame → Relay
  handle_first s socket (FirstFrame.relay_hello env_id version token) =
      checked s socket version token (register s env_id socket)
  handle_first s socket (FirstFrame.relay_attach env_id version token) =
      checked s socket version token (attach s env_id socket)
  handle_first s socket FirstFrame.undecodable = fail_socket s socket "undecodable frame"
  handle_first s socket FirstFrame.foreign = s

abbrev concat : List (List Socket) → List Socket
concat [] = []
concat (l ∷ ls) = l ++ concat ls

unfoldable pub close : Relay → Relay
close s = record s {
  envs = [];
  waiting = [];
  workers = [];
  closed = ((s.closed ++ values s.envs) ++ concat (values s.waiting)) ++ values s.workers;
}
