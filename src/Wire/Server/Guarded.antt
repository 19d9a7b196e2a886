-- ===== src/Wire/Server/Guarded.antt =====
-- server-core.ts: who gets an answer or an event.
use saku.Base.{
  String, Bool, true, false, not, ◌&&◌, ◌||◌, Option, none, some, List, [], ◌∷◌, ◌≡◌, refl, str_eq,
  or_else, if◌then◌else◌, All, All-append, All-map, mem?, Bool-cases, inl, inr, eq_iff,
}
use saku.Base.Map.{get, put}
use saku.Base.Unique.{All-put, get-All}
use saku.PiSessions.Json.{Json}
use saku.Wire.Frames.{
  Command, ClientFrame, ServerFrame, Codec, is_socket_message, is_ping, parse_data, wire_version,
}
use saku.Wire.Server.{
  Route, Running, Answer, WireServer, send, is_authed, fan_out, refuse_hello, respond, start,
  route_command, handle_command, Event,
}

-- A hello of this version with the token that is expected.
abbrev pub is_valid_hello : Option ClientFrame → String → Bool
is_valid_hello (some (ClientFrame.hello version token)) expected =
    str_eq version wire_version && str_eq token expected
is_valid_hello _ expected = false

abbrev pub says_hello : Codec → Option (Option Json) → String → Bool
says_hello codec none expected = false
says_hello codec (some value) expected =
    if is_ping value then false else is_valid_hello (codec.decode_client value) expected

-- The sockets that presented themselves, after one more event.
abbrev pub admitted : Codec → List String → Event → List String
admitted codec sockets (Event.receives socket raw expected) =
    if is_socket_message raw && says_hello codec (parse_data codec raw) expected
    then socket ∷ sockets
    else sockets
admitted codec sockets _ = sockets

abbrev pub all_admitted : Codec → List String → List Event → List String
all_admitted codec sockets [] = sockets
all_admitted codec sockets (e ∷ es) = all_admitted codec (admitted codec sockets e) es

-- Errors and heartbeats go to anyone.
abbrev pub is_open : ServerFrame → Bool
is_open (ServerFrame.error message) = true
is_open ServerFrame.pong = true
is_open _ = false

-- What is sent or runs for a socket, other than errors and heartbeats, is for one of these.
pub record IsGuarded (sockets : List String) (st : WireServer) : Type 0 where
  pub authed : All (λ (x : String × Bool). (not x.1 || mem? x.0 sockets) ≡ true) st.authed
  pub running : All (λ (r : Running). mem? r.socket sockets ≡ true) st.running
  pub sent : All (λ (x : String × ServerFrame). (is_open x.1 || mem? x.0 sockets) ≡ true) st.sent

module _ (sockets : List String) where
  pub send-IsGuarded :
      (st : WireServer) (socket : String) (frame : ServerFrame)
      → IsGuarded sockets st
      → (is_open frame || mem? socket sockets) ≡ true
      → IsGuarded sockets (send st socket frame)
  unfolding send
  send-IsGuarded st socket frame g h = record {
    authed = g.authed;
    running = g.running;
    sent =
        All-append (λ (x : String × ServerFrame). (is_open x.1 || mem? x.0 sockets) ≡ true) st.sent
          ((socket, frame) ∷ []) g.sent (h, tt);
  }

  is_authed-admitted :
      (st : WireServer) (socket : String)
      → IsGuarded sockets st
      → is_authed st socket ≡ true
      → mem? socket sockets ≡ true
  is_authed-admitted st socket g h = at (get socket st.authed) refl h
    where
      at :
          (found : Option Bool)
          → get socket st.authed ≡ found
          → or_else found false ≡ true
          → mem? socket sockets ≡ true
      at none _ k = cc
      at (some false) _ k = cc
      at (some true) there _ =
          get-All (λ (x : String × Bool). (not x.1 || mem? x.0 sockets) ≡ true) socket st.authed
            g.authed there

  or_true : (b : Bool) → (b || true) ≡ true
  or_true true = refl
  or_true false = refl

  admitted_frame :
      (frame : ServerFrame) (socket : String)
      → mem? socket sockets ≡ true
      → (is_open frame || mem? socket sockets) ≡ true
  admitted_frame frame socket h = rw h (or_true (is_open frame))

  pub fan_out-IsGuarded :
      (st : WireServer) (frame : ServerFrame) (clients : List String)
      → IsGuarded sockets st
      → IsGuarded sockets (fan_out st frame clients)
  unfolding fan_out
  fan_out-IsGuarded st frame [] g = g
  fan_out-IsGuarded st frame (socket ∷ clients) g =
      fan_out-IsGuarded (if is_authed st socket then send st socket frame else st) frame clients
        (at (is_authed st socket) refl)
    where
      at :
          (b : Bool)
          → is_authed st socket ≡ b
          → IsGuarded sockets (if b then send st socket frame else st)
      at true h =
          send-IsGuarded st socket frame g
            (admitted_frame frame socket (is_authed-admitted st socket g h))
      at false h = g

  pub respond-IsGuarded :
      (st : WireServer) (socket : String) (id : Option String) (answer : Answer)
      → IsGuarded sockets st
      → mem? socket sockets ≡ true
      → IsGuarded sockets (respond st socket id answer)
  unfolding respond
  respond-IsGuarded st socket none (Answer.success payload) g h = g
  respond-IsGuarded st socket (some id) (Answer.success payload) g h =
      send-IsGuarded st socket _ g h
  respond-IsGuarded st socket none (Answer.failure message) g h = send-IsGuarded st socket _ g refl
  respond-IsGuarded st socket (some id) (Answer.failure message) g h =
      send-IsGuarded st socket _ g h

  start-IsGuarded :
      (st : WireServer) (socket : String) (id : Option String) (route : Route)
      → IsGuarded sockets st
      → mem? socket sockets ≡ true
      → IsGuarded sockets (start st socket id route)
  start-IsGuarded st socket id route g h = record {
    authed = g.authed;
    running =
        All-append (λ (r : Running). mem? r.socket sockets ≡ true) st.running
          ((record { socket = socket; id = id; route = route }) ∷ []) g.running (h, tt);
    sent = g.sent;
  }

  route_command-IsGuarded :
      (st : WireServer) (socket : String) (id thread_id : Option String) (c : Command)
      → IsGuarded sockets st
      → mem? socket sockets ≡ true
      → IsGuarded sockets (route_command st socket id thread_id c)
  unfolding route_command
  route_command-IsGuarded st socket id none (Command.session_command c) g h =
      respond-IsGuarded st socket id _ g h
  route_command-IsGuarded st socket id (some thread_id) (Command.session_command c) g h =
      start-IsGuarded st socket id _ g h
  route_command-IsGuarded st socket id thread_id (Command.hub_command c) g h =
      start-IsGuarded st socket id _ g h

  pub handle_command-IsGuarded :
      (st : WireServer) (socket : String) (id thread_id : Option String) (c : Command)
      → IsGuarded sockets st
      → IsGuarded sockets (handle_command st socket id thread_id c)
  unfolding handle_command
  handle_command-IsGuarded st socket id thread_id c g = elim (Bool-cases (is_authed st socket)) [
    | inl yes' ↦
        rw (yes', handle_command)
          (route_command-IsGuarded st socket id thread_id c g (is_authed-admitted st socket g yes'))
    | inr no' ↦ rw (no', handle_command) (send-IsGuarded st socket _ g refl)
  ]

  pub grown :
      (socket : String) (st : WireServer) → IsGuarded sockets st → IsGuarded (socket ∷ sockets) st
  grown socket st g = record {
    authed =
        All-map
          (λ (x : String × Bool) h. widened (not x.1) (str_eq socket x.0) (mem? x.0 sockets) h)
          st.authed g.authed;
    running =
        All-map
          (λ (r : Running) h. widened false (str_eq socket r.socket) (mem? r.socket sockets) h)
          st.running g.running;
    sent =
        All-map
          (λ (x : String × ServerFrame) h.
            widened (is_open x.1) (str_eq socket x.0) (mem? x.0 sockets) h)
          st.sent g.sent;
  }
    where
      widened : (a b c : Bool) → (a || c) ≡ true → (a || (if b then true else c)) ≡ true
      widened true b c h = refl
      widened false true c h = refl
      widened false false c h = h

  pub itself : (socket : String) → mem? socket (socket ∷ sockets) ≡ true
  itself socket = rw ((eq_iff socket socket).1 refl) refl

  pub refuse_hello-IsGuarded :
      (st : WireServer) (socket message : String)
      → IsGuarded sockets st
      → IsGuarded sockets (refuse_hello st socket message)
  unfolding refuse_hello
  refuse_hello-IsGuarded st socket message g =
      let g' = send-IsGuarded st socket (ServerFrame.error message) g refl in
      record { authed = g'.authed; running = g'.running; sent = g'.sent }

  pub set_authed-IsGuarded :
      (st : WireServer) (socket : String) (flag : Bool)
      → IsGuarded sockets st
      → (not flag || mem? socket sockets) ≡ true
      → IsGuarded sockets (record st { authed = put socket flag st.authed })
  set_authed-IsGuarded st socket flag g h = record {
    authed =
        All-put (λ (x : String × Bool). (not x.1 || mem? x.0 sockets) ≡ true) socket flag st.authed
          g.authed h;
    running = g.running;
    sent = g.sent;
  }
