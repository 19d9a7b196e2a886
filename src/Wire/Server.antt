-- ===== src/Wire/Server.antt =====
-- server-core.ts: one server for all consoles. A socket is named; what is sent and which sockets are told
-- to close is recorded. A command runs from the moment it is routed until its handler answers, so answers
-- come at any later time. A send that fails is only logged, and is one like the others here.
pub mod Guarded
pub mod History
use saku.Base.{
  ℕ, zero, suc, String, Bool, true, false, not, Option, none, some, List, [], ◌∷◌, ◌++◌, str_eq,
  or_else, if◌then◌else◌,
}
use saku.Base.Map.{Map, get, put}
use saku.PiSessions.Json.{Json}
use saku.Wire.Frames.{
  Command, ClientFrame, ServerFrame, SocketData, Codec, is_socket_message, is_ping, parse_data,
  wire_version,
}

-- Where a command goes.
pub data Route : Type 0 where
  hub : (command : String) → Route
  session : (thread_id command : String) → Route

pub record Running : Type 0 where
  pub socket : String
  pub id : Option String
  pub route : Route

pub data Answer : Type 0 where
  success : (payload : String) → Answer
  failure : (message : String) → Answer

pub record WireServer : Type 0 where
  pub pid : ℕ
  pub clients : List String
  pub authed : Map Bool  -- the flag lives as long as the socket's listeners
  pub running : List Running
  pub sent : List (String × ServerFrame)
  pub closing : List String

abbrev pub no_clients : ℕ → WireServer
no_clients pid = record {
  pid = pid;
  clients = [];
  authed = [];
  running = [];
  sent = [];
  closing = [];
}

unfoldable pub send : WireServer → String → ServerFrame → WireServer
send st socket frame = record st { sent = st.sent ++ (socket, frame) ∷ [] }

abbrev pub close_socket : WireServer → String → WireServer
close_socket st socket = record st { closing = st.closing ++ socket ∷ [] }

abbrev pub is_authed : WireServer → String → Bool
is_authed st socket = or_else (get socket st.authed) false

-- The sends of `broadcast`, client by client.
unfoldable pub fan_out : WireServer → ServerFrame → List String → WireServer
unfolding send
fan_out st frame [] = st
fan_out st frame (socket ∷ clients) =
    fan_out (if is_authed st socket then send st socket frame else st) frame clients

unfoldable pub broadcast : WireServer → ServerFrame → WireServer
broadcast st frame = fan_out st frame st.clients

unfoldable pub refuse_hello : WireServer → String → String → WireServer
unfolding send
refuse_hello st socket message = close_socket (send st socket (ServerFrame.error message)) socket

-- `expected` is the token that the resolver answers at this hello.
unfoldable pub handle_hello :
    WireServer → String → (expected : String) → (version token : String) → WireServer
unfolding refuse_hello send
handle_hello st socket expected version token = elim (str_eq version wire_version) [
  | false ↦ refuse_hello st socket "version mismatch: expected 0.3.0"
  | true ↦ elim (str_eq token expected) [
    | false ↦ refuse_hello st socket "invalid token"
    | true ↦
        send (record st { authed = put socket true st.authed }) socket
          (ServerFrame.hello_ok st.pid wire_version)
  ]
]

unfoldable pub respond : WireServer → String → Option String → Answer → WireServer
unfolding send
respond st socket none (Answer.success payload) = st
respond st socket (some id) (Answer.success payload) =
    send st socket (ServerFrame.response_ok id payload)
respond st socket none (Answer.failure message) = send st socket (ServerFrame.error message)
respond st socket (some id) (Answer.failure message) =
    send st socket (ServerFrame.response_error id message)

abbrev pub start : WireServer → String → Option String → Route → WireServer
start st socket id route = record st {
  running = st.running ++ (record { socket = socket; id = id; route = route }) ∷ [];
}

unfoldable pub route_command :
    WireServer → String → Option String → Option String → Command → WireServer
unfolding respond
route_command st socket id none (Command.session_command c) =
    respond st socket id (Answer.failure "session command without a threadId")
route_command st socket id (some thread_id) (Command.session_command c) =
    start st socket id (Route.session thread_id c)
route_command st socket id thread_id (Command.hub_command c) = start st socket id (Route.hub c)

unfoldable pub handle_command :
    WireServer → String → Option String → Option String → Command → WireServer
unfolding send route_command
handle_command st socket id thread_id c = elim (is_authed st socket) [
  | false ↦ send st socket (ServerFrame.error "hello first")
  | true ↦ route_command st socket id thread_id c
]

abbrev pub handle_frame : WireServer → String → String → Option ClientFrame → WireServer
handle_frame st socket expected none = send st socket (ServerFrame.error "undecodable message")
handle_frame st socket expected (some (ClientFrame.hello version token)) =
    handle_hello st socket expected version token
handle_frame st socket expected (some (ClientFrame.command id thread_id c)) =
    handle_command st socket id thread_id c

-- What happens to a server.
pub data Event : Type 0 where
  connects disconnects : (socket : String) → Event
  receives : (socket : String) → SocketData → (expected : String) → Event
  answers : (nth : ℕ) → Answer → Event
  broadcasts : (thread_id event : String) → Event
  closes : Event

unfoldable pub without : String → List String → List String
without socket [] = []
without socket (s ∷ sockets) =
    let rest = without socket sockets in if str_eq s socket then rest else s ∷ rest

-- The n-th command that runs, and the others.
unfoldable pub take_nth : ℕ → List Running → Option (Running × List Running)
take_nth n [] = none
take_nth zero (r ∷ rs) = some (r, rs)
take_nth (suc n) (r ∷ rs) = elim (take_nth n rs) [
  | none ↦ none
  | some taken ↦ some (taken.0, r ∷ taken.1)
]

abbrev pub finish : WireServer → Answer → Option (Running × List Running) → WireServer
finish st answer none = st
finish st answer (some (r, rest)) = respond (record st { running = rest }) r.socket r.id answer

module _ (codec : Codec) where
  abbrev pub parsed_frame : WireServer → String → String → Option (Option Json) → WireServer
  parsed_frame st socket expected none = send st socket (ServerFrame.error "malformed JSON frame")
  parsed_frame st socket expected (some value) = elim (is_ping value) [
    | true ↦ send st socket ServerFrame.pong
    | false ↦ handle_frame st socket expected (codec.decode_client value)
  ]

  unfoldable pub on_message : WireServer → String → SocketData → String → WireServer
  unfolding send handle_hello handle_command parse_data
  on_message st socket raw expected = elim (is_socket_message raw) [
    | false ↦ st
    | true ↦ parsed_frame st socket expected (parse_data codec raw)
  ]

  unfoldable pub handle : WireServer → Event → WireServer
  unfolding on_message broadcast without take_nth respond
  handle st (Event.connects socket) = record st {
    clients = st.clients ++ socket ∷ [];
    authed = put socket false st.authed;
  }
  handle st (Event.disconnects socket) = record st { clients = without socket st.clients }
  handle st (Event.receives socket raw expected) = on_message st socket raw expected
  handle st (Event.answers n answer) = finish st answer (take_nth n st.running)
  handle st (Event.broadcasts thread_id event) = broadcast st (ServerFrame.event thread_id event)
  handle st Event.closes = record st { clients = []; closing = st.closing ++ st.clients }

  unfoldable pub handle_all : WireServer → List Event → WireServer
  unfolding handle
  handle_all st [] = st
  handle_all st (e ∷ es) = handle_all (handle st e) es
