-- ===== src/Wire/Tests.antt =====
-- A server and a client at concrete histories.
use saku.Base.{
  ℕ, zero, suc, ◌+◌, ◌≤◌, String, true, none, some, List, [], ◌∷◌, ◌≡◌, refl, ap, str_eq,
  if◌then◌else◌, mem?,
}
use saku.Base.Map.{get, put}
use saku.PiSessions.Json.{Json}
use saku.Wire.Frames.{Command, ClientFrame, ServerFrame, SocketData, Codec, parse_frame, parse_data}
use saku.Wire.Server.{
  Answer, Event, no_clients, handle_all, handle, on_message, send, handle_hello, handle_command,
  route_command, respond, take_nth, broadcast, fan_out, refuse_hello,
}
use saku.Wire.Server.Guarded.{IsGuarded, all_admitted}
use saku.Wire.Server.History.{handle_all-IsGuarded}
use saku.Wire.Client.{
  WireErrorCode, Outcome, ClientState, ClientEvent, Call, new_client, perform_all, perform, request,
  connect, disconnect, transition, settle, settle_all, fail_all_pending, resolve_response,
  settle_connect, handle_frame, delete,
}
use saku.Wire.Client.Settled.{count, answered}
use saku.Wire.Client.Requests.{issued}
use saku.Wire.Client.History.{perform_all-IsSettled}
use Prim.Native.Char.{Char}
use Prim.Native.String.{[] as ε, ◌∷◌ as ◌::◌}

abbrev codec : Codec
codec = record {
  json_parse = λ line. some (Json.text line);
  decode_client = λ value. elim value [
    | some (Json.text line) ↦
        if str_eq line "hello"
        then some (ClientFrame.hello "0.3.0" "secret")
        else if str_eq line "guess"
        then some (ClientFrame.hello "0.3.0" "guess")
        else some (ClientFrame.command (some "req_1") none (Command.hub_command line))
    | _ ↦ none
  ];
  decode_server = λ value. elim value [
    | some (Json.text line) ↦
        if str_eq line "welcome"
        then some (ServerFrame.hello_ok 7 "0.3.0")
        else some (ServerFrame.response_ok line "done")
    | _ ↦ none
  ];
}

-- One console presents itself and asks, another guesses the token and asks too.
abbrev consoles : List Event
consoles =
    Event.connects "a"
    ∷ Event.connects "b"
    ∷ Event.receives "a" (SocketData.text "hello") "secret"
    ∷ Event.receives "b" (SocketData.text "guess") "secret"
    ∷ Event.receives "a" (SocketData.text "list") "secret"
    ∷ Event.receives "b" (SocketData.text "list") "secret"
    ∷ Event.answers 0 (Answer.success "threads")
    ∷ Event.broadcasts "t1" "news"
    ∷ []

consoles-sent :
    (handle_all codec (no_clients 7) consoles).sent
    ≡ ("a", ServerFrame.hello_ok 7 "0.3.0")
      ∷ ("b", ServerFrame.error "invalid token")
      ∷ ("b", ServerFrame.error "hello first")
      ∷ ("a", ServerFrame.response_ok "req_1" "threads")
      ∷ ("a", ServerFrame.event "t1" "news")
      ∷ []
unfolding handle_all handle on_message parse_data parse_frame send handle_hello handle_command
    route_command respond take_nth broadcast fan_out refuse_hello get put
consoles-sent = refl

handle_all-IsGuarded_example :
    IsGuarded (all_admitted codec [] consoles) (handle_all codec (no_clients 7) consoles)
handle_all-IsGuarded_example = handle_all-IsGuarded codec 7 consoles

abbrev letter : Char
letter = "r"

-- As many letters as the number says.
tally : ℕ → String
tally zero = ε
tally (suc n) = letter :: tally n

tally_distinct : (m n : ℕ) → tally m ≡ tally n → m ≡ n
unfolding tally
tally_distinct zero zero h = refl
tally_distinct zero (suc n) h = cc
tally_distinct (suc m) zero h = cc
tally_distinct (suc m) (suc n) h = ap suc (tally_distinct m n (tail_injective h))
  where
    tail_injective : {s t : String} → (letter :: s) ≡ (letter :: t) → s ≡ t
    tail_injective e = cc

-- A connection with two requests; one is answered, and the connection closes on the other.
abbrev calls : List Call
calls =
    Call.connects 0
    ∷ Call.turns 0 true
    ∷ Call.brings ClientEvent.opened
    ∷ Call.turns 0 true
    ∷ Call.brings (ClientEvent.frame "welcome")
    ∷ Call.turns 0 true
    ∷ Call.requests "first"
    ∷ Call.requests "second"
    ∷ Call.turns 0 true
    ∷ Call.turns 0 true
    ∷ Call.brings (ClientEvent.frame "r")
    ∷ Call.turns 0 true
    ∷ Call.brings ClientEvent.closed
    ∷ Call.turns 0 true
    ∷ []

calls-settled :
    (perform_all codec tally new_client calls).settled
    ≡ ("r", Outcome.succeeded "done") ∷ ("rr", Outcome.failed WireErrorCode.disconnected) ∷ []
unfolding perform_all perform request connect disconnect transition settle settle_all
    fail_all_pending resolve_response settle_connect handle_frame delete parse_frame tally
calls-settled = refl

perform_all-IsSettled_example :
    let c = perform_all codec tally new_client calls in
    (count "rr" c.awaiting + count "rr" (answered c.settled) ≡ count "rr" (issued tally c.seq))
    × (count "rr" (issued tally c.seq) ≤ 1)
    × (mem? "rr" c.awaiting ≡ mem? "rr" c.pending)
perform_all-IsSettled_example = perform_all-IsSettled codec tally tally_distinct calls "rr"

-- A request between `disconnect` and the turn of the machine: the client is disconnected, and the
-- request waits on.
abbrev raced : List Call
raced =
    Call.connects 0
    ∷ Call.turns 0 true
    ∷ Call.brings ClientEvent.opened
    ∷ Call.turns 0 true
    ∷ Call.brings (ClientEvent.frame "welcome")
    ∷ Call.turns 0 true
    ∷ Call.disconnects
    ∷ Call.requests "late"
    ∷ Call.turns 0 true
    ∷ Call.turns 0 true
    ∷ []

raced-waits :
    let c = perform_all codec tally new_client raced in
    (c.state ≡ ClientState.disconnected) × (c.queue ≡ []) × (c.awaiting ≡ "r" ∷ [])
unfolding perform_all perform request connect disconnect transition settle settle_all
    fail_all_pending resolve_response settle_connect handle_frame delete parse_frame tally
raced-waits = (refl, refl, refl)
