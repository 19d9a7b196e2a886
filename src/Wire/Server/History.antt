-- ===== src/Wire/Server/History.antt =====
-- server-core.ts: over any events, only a socket that presented itself is answered.
use saku.Base.{
  ℕ, zero, suc, String, Bool, true, false, ◌&&◌, Option, none, some, List, [], ◌∷◌, ◌≡◌, refl,
  str_eq, if◌then◌else◌, All, mem?, Bool-cases, inl, inr,
}
use saku.Base.Map.{put}
use saku.PiSessions.Json.{Json}
use saku.Wire.Frames.{
  ClientFrame, ServerFrame, SocketData, Codec, is_ping, parse_data, wire_version,
}
use saku.Wire.Server.{
  Running, Answer, WireServer, no_clients, send, broadcast, refuse_hello, handle_hello,
  handle_frame, Event, take_nth, finish, parsed_frame, on_message, handle, handle_all,
}
use saku.Wire.Server.Guarded.{
  IsGuarded, is_valid_hello, says_hello, admitted, all_admitted, send-IsGuarded, fan_out-IsGuarded,
  respond-IsGuarded, handle_command-IsGuarded, grown, itself, refuse_hello-IsGuarded,
  set_authed-IsGuarded,
}

module _ (sockets : List String) where
  welcome-IsGuarded :
      (st : WireServer) (socket : String)
      → IsGuarded sockets st
      → IsGuarded (socket ∷ sockets) (
          send
            (record st { authed = put socket true st.authed })
            socket
            (ServerFrame.hello_ok st.pid wire_version))
  welcome-IsGuarded st socket g =
      send-IsGuarded (socket ∷ sockets) _ socket _
        (set_authed-IsGuarded (socket ∷ sockets) st socket true (grown sockets socket st g)
          (itself sockets socket))
        (itself sockets socket)

  -- The hello of a socket, with both outcomes of both checks.
  handle_hello-IsGuarded :
      (st : WireServer) (socket expected version token : String)
      → IsGuarded sockets st
      → IsGuarded
          (if str_eq version wire_version && str_eq token expected
            then socket ∷ sockets
            else sockets)
          (handle_hello st socket expected version token)
  unfolding handle_hello refuse_hello
  handle_hello-IsGuarded st socket expected version token g =
      elim (Bool-cases (str_eq version wire_version)) [
        | inr old ↦ rw (old, handle_hello) (refuse_hello-IsGuarded sockets st socket _ g)
        | inl current ↦ elim (Bool-cases (str_eq token expected)) [
          | inr wrong ↦
              rw (current, wrong, handle_hello) (refuse_hello-IsGuarded sockets st socket _ g)
          | inl right ↦ rw (current, right, handle_hello) (welcome-IsGuarded st socket g)
        ]
      ]

module _ (codec : Codec) (sockets : List String) where
  frame-IsGuarded :
      (st : WireServer) (socket expected : String) (decoded : Option ClientFrame)
      → IsGuarded sockets st
      → IsGuarded
          (if is_valid_hello decoded expected then socket ∷ sockets else sockets)
          (handle_frame st socket expected decoded)
  frame-IsGuarded st socket expected none g = send-IsGuarded sockets st socket _ g refl
  frame-IsGuarded st socket expected (some (ClientFrame.hello version token)) g =
      handle_hello-IsGuarded sockets st socket expected version token g
  frame-IsGuarded st socket expected (some (ClientFrame.command id thread_id c)) g =
      handle_command-IsGuarded sockets st socket id thread_id c g

  parsed-IsGuarded :
      (st : WireServer) (socket expected : String) (value : Option (Option Json))
      → IsGuarded sockets st
      → IsGuarded
          (if says_hello codec value expected then socket ∷ sockets else sockets)
          (parsed_frame codec st socket expected value)
  parsed-IsGuarded st socket expected none g = send-IsGuarded sockets st socket _ g refl
  parsed-IsGuarded st socket expected (some value) g = at (is_ping value)
    where
      at :
          (ping : Bool)
          → IsGuarded
              (if (if ping then false else is_valid_hello (codec.decode_client value) expected)
                then socket ∷ sockets
                else sockets)
              (elim ping as (λ _. WireServer) [
                | true ↦ send st socket ServerFrame.pong
                | false ↦ handle_frame st socket expected (codec.decode_client value)
              ])
      at true = send-IsGuarded sockets st socket _ g refl
      at false = frame-IsGuarded st socket expected (codec.decode_client value) g

  message-IsGuarded :
      (st : WireServer) (socket expected : String) (raw : SocketData)
      → IsGuarded sockets st
      → IsGuarded
          (admitted codec sockets (Event.receives socket raw expected))
          (on_message codec st socket raw expected)
  unfolding on_message
  message-IsGuarded st socket expected SocketData.other g = g
  message-IsGuarded st socket expected (SocketData.text line) g =
      parsed-IsGuarded st socket expected (parse_data codec (SocketData.text line)) g
  message-IsGuarded st socket expected (SocketData.binary line) g =
      parsed-IsGuarded st socket expected (parse_data codec (SocketData.binary line)) g
  message-IsGuarded st socket expected SocketData.blob g =
      parsed-IsGuarded st socket expected (parse_data codec SocketData.blob) g

  abbrev Admitted : Running → Type 0
  Admitted r = mem? r.socket sockets ≡ true

  abbrev TakenAdmitted : Option (Running × List Running) → Type 0
  TakenAdmitted none = Unit
  TakenAdmitted (some taken) = Admitted taken.0 × All Admitted taken.1

  -- The command that is taken is one that ran, and so are the others.
  take_nth-TakenAdmitted :
      (n : ℕ) (rs : List Running) → All Admitted rs → TakenAdmitted (take_nth n rs)
  unfolding take_nth
  take_nth-TakenAdmitted n [] g = tt
  take_nth-TakenAdmitted zero (x ∷ rs) (p, g) = (p, g)
  take_nth-TakenAdmitted (suc n) (x ∷ rs) (p, g) =
      at (take_nth n rs) (take_nth-TakenAdmitted n rs g)
    where
      at :
          (taken : Option (Running × List Running))
          → TakenAdmitted taken
          → TakenAdmitted (elim taken as (λ _. Option (Running × List Running)) [
            | none ↦ none
            | some t ↦ some (t.0, x ∷ t.1)
          ])
      at none h = tt
      at (some t) (q, h) = (q, (p, h))

  finish-IsGuarded :
      (st : WireServer) (answer : Answer) (taken : Option (Running × List Running))
      → IsGuarded sockets st
      → TakenAdmitted taken
      → IsGuarded sockets (finish st answer taken)
  finish-IsGuarded st answer none g h = g
  finish-IsGuarded st answer (some (r, rest)) g (own, others) =
      respond-IsGuarded sockets (record st { running = rest }) r.socket r.id answer
        (record { authed = g.authed; running = others; sent = g.sent }) own

  handle-IsGuarded :
      (st : WireServer) (e : Event)
      → IsGuarded sockets st
      → IsGuarded (admitted codec sockets e) (handle codec st e)
  unfolding handle broadcast
  handle-IsGuarded st (Event.connects socket) g =
      let g' = set_authed-IsGuarded sockets st socket false g refl in
      record { authed = g'.authed; running = g'.running; sent = g'.sent }
  handle-IsGuarded st (Event.disconnects socket) g = record {
    authed = g.authed;
    running = g.running;
    sent = g.sent;
  }
  handle-IsGuarded st (Event.receives socket raw expected) g =
      message-IsGuarded st socket expected raw g
  handle-IsGuarded st (Event.answers n answer) g =
      finish-IsGuarded st answer (take_nth n st.running) g
        (take_nth-TakenAdmitted n st.running g.running)
  handle-IsGuarded st (Event.broadcasts thread_id event) g =
      fan_out-IsGuarded sockets st (ServerFrame.event thread_id event) st.clients g
  handle-IsGuarded st Event.closes g = record {
    authed = g.authed;
    running = g.running;
    sent = g.sent;
  }

all-IsGuarded :
    (codec : Codec) (sockets : List String) (st : WireServer) (es : List Event)
    → IsGuarded sockets st
    → IsGuarded (all_admitted codec sockets es) (handle_all codec st es)
unfolding handle_all
all-IsGuarded codec sockets st [] g = g
all-IsGuarded codec sockets st (e ∷ es) g =
    all-IsGuarded codec (admitted codec sockets e) (handle codec st e) es
      (handle-IsGuarded codec sockets st e g)

-- Over any events from a server without clients: a socket that is sent anything but errors and
-- heartbeats, or for which a command runs, has sent a hello of this version with the token that was
-- expected at that time.
pub handle_all-IsGuarded :
    (codec : Codec) (pid : ℕ) (es : List Event)
    → IsGuarded (all_admitted codec [] es) (handle_all codec (no_clients pid) es)
handle_all-IsGuarded codec pid es =
    all-IsGuarded codec [] (no_clients pid) es (record { authed = tt; running = tt; sent = tt })
