-- ===== src/Wire/Client.antt =====
-- client.ts: a console's connection. The machine takes one event at a time from its mailbox; calls and
-- sockets add to the mailbox at any time, so a history is a list of calls, socket events and turns of the
-- machine. A request is named by its identifier, and so is the deferred that it waits on; `awaiting` has
-- the requests whose fiber still waits.
pub mod Settled
pub mod Requests
pub mod History
use saku.Base.{
  ℕ, zero, suc, ◌+◌, ◌-◌, String, Bool, true, false, not, Option, none, some, List, [], ◌∷◌, ◌++◌,
  mem?, str_eq, ltb, if◌then◌else◌,
}
use saku.PiSessions.Json.{Json}
use saku.Wire.Frames.{ServerFrame, Codec, parse_frame}

pub data WireErrorCode : Type 0 where
  disconnected refused handshake command_failed timeout decode : WireErrorCode

pub data Outcome : Type 0 where
  succeeded : (payload : String) → Outcome
  failed : WireErrorCode → Outcome

pub data ClientState : Type 0 where
  disconnected connecting handshaking connected : ClientState

-- The mailbox of the machine.
pub data ClientEvent : Type 0 where
  connect_requested disconnect_requested closed errored opened ping_requested : ClientEvent
  command_sent : (id frame : String) → ClientEvent
  frame : (line : String) → ClientEvent

-- What the listeners are told.
pub data Emitted : Type 0 where
  event : (thread_id event : String) → Emitted
  thread_changed : (thread : String) → Emitted
  hello_ok : (pid : ℕ) → (version : String) → Emitted
  error : (message : String) → Emitted
  close : Emitted

-- What goes out over the socket.
pub data Sent : Type 0 where
  hello ping : Sent
  command : (frame : String) → Sent

pub record WireClient : Type 0 where
  pub state : ClientState
  pub queue : List ClientEvent
  pub seq : ℕ
  pub pending : List String
  pub awaiting : List String
  pub settled : List (String × Outcome)
  pub connect_ref : Option ℕ  -- the number of the handshake that waits
  pub connects : ℕ
  pub connected_as : List (ℕ × Outcome)
  pub emitted : List Emitted
  pub sent : List Sent
  pub closes : ℕ  -- how often the socket was told to close
  pub last_pong_at : ℕ

abbrev pub new_client : WireClient
new_client = record {
  state = ClientState.disconnected;
  queue = [];
  seq = 0;
  pending = [];
  awaiting = [];
  settled = [];
  connect_ref = none;
  connects = 0;
  connected_as = [];
  emitted = [];
  sent = [];
  closes = 0;
  last_pong_at = 0;
}

abbrev pub enqueue : WireClient → ClientEvent → WireClient
enqueue c e = record c { queue = c.queue ++ e ∷ [] }

abbrev pub emit : WireClient → Emitted → WireClient
emit c e = record c { emitted = c.emitted ++ e ∷ [] }

abbrev pub become : WireClient → ClientState → WireClient
become c state = record c { state = state }

unfoldable pub delete : String → List String → List String
delete id [] = []
delete id (x ∷ xs) = let rest = delete id xs in if str_eq x id then rest else x ∷ rest

-- A deferred is completed once: the fiber that waits goes on, and later outcomes are dropped.
unfoldable pub settle : WireClient → String → Outcome → WireClient
unfolding delete
settle c id outcome = elim (mem? id c.awaiting) [
  | false ↦ c
  | true ↦ record c { awaiting = delete id c.awaiting; settled = c.settled ++ (id, outcome) ∷ [] }
]

unfoldable pub settle_all : WireClient → List String → Outcome → WireClient
unfolding settle
settle_all c [] outcome = c
settle_all c (id ∷ ids) outcome = settle_all (settle c id outcome) ids outcome

-- `failAllPending`
unfoldable pub fail_all_pending : WireClient → WireClient
unfolding settle_all
fail_all_pending c =
    settle_all (record c { pending = [] }) c.pending (Outcome.failed WireErrorCode.disconnected)

unfoldable pub resolve_response : WireClient → String → Outcome → WireClient
unfolding settle delete
resolve_response c id outcome =
    let next = record c { pending = delete id c.pending } in
    elim (mem? id c.pending) [ false ↦ next | true ↦ settle next id outcome ]

unfoldable pub settle_connect : WireClient → Outcome → WireClient
settle_connect c outcome = elim c.connect_ref [
  | none ↦ c
  | some n ↦ record c { connect_ref = none; connected_as = c.connected_as ++ (n, outcome) ∷ [] }
]

abbrev pub refuse_connect : WireClient → WireErrorCode → WireClient
refuse_connect c code = settle_connect c (Outcome.failed code)

-- `handleFrame`; `now` is the wall clock.
unfoldable pub handle_frame : ℕ → WireClient → ServerFrame → WireClient
unfolding resolve_response
handle_frame now c (ServerFrame.error message) = emit c (Emitted.error message)
handle_frame now c (ServerFrame.event thread_id e) = emit c (Emitted.event thread_id e)
handle_frame now c (ServerFrame.hello_ok pid version) = emit c (Emitted.hello_ok pid version)
handle_frame now c ServerFrame.pong = record c { last_pong_at = now }
handle_frame now c (ServerFrame.response_ok id payload) =
    resolve_response c id (Outcome.succeeded payload)
handle_frame now c (ServerFrame.response_error id message) =
    resolve_response c id (Outcome.failed WireErrorCode.command_failed)
handle_frame now c (ServerFrame.thread_changed thread) = emit c (Emitted.thread_changed thread)

-- The reply to a hello.
abbrev pub handle_reply : WireClient → ServerFrame → WireClient
handle_reply c (ServerFrame.hello_ok pid version) =
    become (emit (settle_connect c (Outcome.succeeded version)) (Emitted.hello_ok pid version))
      ClientState.connected
handle_reply c (ServerFrame.error message) =
    become (refuse_connect c WireErrorCode.handshake) ClientState.disconnected
handle_reply c _ = c

module _ (codec : Codec) where
  abbrev pub decode_value : Option (Option Json) → Option ServerFrame
  decode_value none = none
  decode_value (some value) = codec.decode_server value

  abbrev pub decode_line : String → Option ServerFrame
  decode_line line = decode_value (parse_frame codec line)

  abbrev pub complaint : Option (Option Json) → String
  complaint none = "malformed JSON frame from server"
  complaint (some value) = "undecodable wire frame"

  -- A line that does not decode is an error event.
  abbrev pub on_frame : WireClient → String → (WireClient → ServerFrame → WireClient) → WireClient
  on_frame c line next = elim (decode_line line) [
    | none ↦ emit c (Emitted.error (complaint (parse_frame codec line)))
    | some decoded ↦ next c decoded
  ]

  -- One transition. `is_open` says whether the socket takes what is sent.
  unfoldable pub transition :
      ℕ → ClientState → ClientEvent → (is_open : Bool) → WireClient → WireClient
  unfolding settle_connect resolve_response fail_all_pending handle_frame parse_frame
  transition now ClientState.disconnected ClientEvent.connect_requested is_open c =
      become c ClientState.connecting
  transition now ClientState.connecting ClientEvent.opened true c =
      become (record c { sent = c.sent ++ Sent.hello ∷ [] }) ClientState.handshaking
  transition now ClientState.connecting ClientEvent.opened false c =
      become (refuse_connect c WireErrorCode.disconnected) ClientState.disconnected
  transition now ClientState.connecting ClientEvent.errored is_open c =
      refuse_connect c WireErrorCode.refused
  transition now ClientState.connecting ClientEvent.closed is_open c =
      become (refuse_connect c WireErrorCode.disconnected) ClientState.disconnected
  transition now ClientState.handshaking (ClientEvent.frame line) is_open c =
      on_frame c line handle_reply
  transition now ClientState.handshaking ClientEvent.closed is_open c =
      become (refuse_connect c WireErrorCode.disconnected) ClientState.disconnected
  transition now ClientState.connected (ClientEvent.frame line) is_open c =
      on_frame c line (handle_frame now)
  transition now ClientState.connected ClientEvent.closed is_open c =
      become (emit (fail_all_pending c) Emitted.close) ClientState.disconnected
  transition now ClientState.connected (ClientEvent.command_sent id out) true c = record c {
    sent = c.sent ++ Sent.command out ∷ [];
  }
  transition now ClientState.connected (ClientEvent.command_sent id out) false c =
      resolve_response c id (Outcome.failed WireErrorCode.disconnected)
  transition now ClientState.connected ClientEvent.ping_requested true c = record c {
    sent = c.sent ++ Sent.ping ∷ [];
  }
  transition now ClientState.handshaking ClientEvent.disconnect_requested is_open c =
      become (record (refuse_connect c WireErrorCode.disconnected) { closes = c.closes + 1 })
        ClientState.disconnected
  transition now ClientState.connected ClientEvent.disconnect_requested is_open c =
      become (record (refuse_connect c WireErrorCode.disconnected) { closes = c.closes + 1 })
        ClientState.disconnected
  transition now state ClientEvent.disconnect_requested is_open c =
      become (refuse_connect c WireErrorCode.disconnected) ClientState.disconnected
  transition now state other is_open c = c

abbrev pub dead_after : ℕ
dead_after = 45000

-- What the console, the clock and the socket do.
pub data Call : Type 0 where
  requests : (frame : String) → Call
  times_out : (id : String) → Call
  connects : (now : ℕ) → Call
  disconnects : Call
  brings : ClientEvent → Call
  ticks : (now : ℕ) → Call
  turns : (now : ℕ) → (is_open : Bool) → Call

-- The heartbeat of a live connection: a ping, or the end of a connection that is dead.
abbrev pub heartbeat : ℕ → ClientState → WireClient → WireClient
heartbeat now ClientState.connected c =
    if ltb dead_after (now - c.last_pong_at)
    then record c { closes = c.closes + 1 }
    else enqueue c ClientEvent.ping_requested
heartbeat now _ c = c

unfoldable pub connect : ℕ → WireClient → WireClient
connect now c =
    enqueue
      (record c { connect_ref = some c.connects; connects = suc c.connects; last_pong_at = now })
      ClientEvent.connect_requested

unfoldable pub disconnect : WireClient → WireClient
unfolding fail_all_pending
disconnect c = enqueue (fail_all_pending c) ClientEvent.disconnect_requested

-- The time limit of a request, and the removal that its fiber ensures.
unfoldable pub time_out : WireClient → String → WireClient
unfolding settle delete
time_out c id = elim (mem? id c.awaiting) [
  | false ↦ c
  | true ↦
      settle (record c { pending = delete id c.pending }) id (Outcome.failed WireErrorCode.timeout)
]

module _ (codec : Codec) (request_id : ℕ → String) where
  -- A request that is accepted waits under a fresh identifier; one without a connection fails at once.
  unfoldable pub request : ClientState → WireClient → String → WireClient
  request ClientState.connected c out =
      let id = request_id (suc c.seq) in
      enqueue
        (record c {
          seq = suc c.seq;
          pending = c.pending ++ id ∷ [];
          awaiting = c.awaiting ++ id ∷ [];
        })
        (ClientEvent.command_sent id out)
  request _ c out = c

  abbrev pub take_turn : ℕ → Bool → List ClientEvent → WireClient → WireClient
  take_turn now is_open [] c = c
  take_turn now is_open (e ∷ es) c =
      transition codec now c.state e is_open (record c { queue = es })

  unfoldable pub perform : WireClient → Call → WireClient
  unfolding transition connect disconnect time_out request
  perform c (Call.requests out) = request c.state c out
  perform c (Call.times_out id) = time_out c id
  perform c (Call.connects now) = connect now c
  perform c Call.disconnects = disconnect c
  perform c (Call.brings e) = enqueue c e
  perform c (Call.ticks now) = heartbeat now c.state c
  perform c (Call.turns now is_open) = take_turn now is_open c.queue c

  unfoldable pub perform_all : WireClient → List Call → WireClient
  unfolding perform
  perform_all c [] = c
  perform_all c (call ∷ calls) = perform_all (perform c call) calls
