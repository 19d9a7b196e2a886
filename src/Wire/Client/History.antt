-- ===== src/Wire/Client/History.antt =====
-- client.ts: no call, socket event or turn of the machine loses a request or answers it twice.
use saku.Base.{
  ℕ, suc, ◌+◌, ◌≤◌, String, Bool, true, false, Option, none, some, List, [], ◌∷◌, ◌++◌, ◌≡◌, refl,
  sym, ap, ◌∙◌, subst, str_eq, if◌then◌else◌, ltb, ◌-◌, mem?, arith,
}
use saku.Wire.Frames.{ServerFrame, Codec, parse_frame}
use saku.Wire.Client.{
  WireErrorCode, Outcome, ClientState, ClientEvent, Emitted, WireClient, new_client, enqueue, emit,
  become, fail_all_pending, settle_connect, handle_frame, handle_reply, decode_line, complaint,
  on_frame, transition, Call, heartbeat, connect, disconnect, request, take_turn, perform,
  perform_all, dead_after,
}
use saku.Wire.Client.Settled.{count, answered, count-append, mem?-append}
use saku.Wire.Client.Requests.{
  issued, IsSettled, single, fail_all_pending-IsSettled, resolve_response-IsSettled,
  time_out-IsSettled, same-IsSettled, settle_connect-IsSettled, handle_frame-IsSettled,
  handle_reply-IsSettled, refused-IsSettled,
}

module _ (request_id : ℕ → String) (distinct : (m n : ℕ) → request_id m ≡ request_id n → m ≡ n)
    (codec : Codec) where
  abbrev Settled : ℕ → WireClient → Type 0
  Settled = IsSettled request_id distinct

  module _ (n : ℕ) where
    on_frame-IsSettled :
        (c : WireClient) (line : String) (next : WireClient → ServerFrame → WireClient)
        → ((f : ServerFrame) → Settled n (next c f))
        → Settled n c
        → Settled n (on_frame codec c line next)
    on_frame-IsSettled c line next keeps s = at (decode_line codec line)
      where
        at :
            (decoded : Option ServerFrame)
            → Settled n (elim decoded as (λ _. WireClient) [
              | none ↦ emit c (Emitted.error (complaint codec (parse_frame codec line)))
              | some f ↦ next c f
            ])
        at none = same-IsSettled request_id distinct n c _ refl refl refl refl s
        at (some f) = keeps f

    closing :
        (c : WireClient)
        → Settled n c
        → Settled n (
            become
              (record (settle_connect c (Outcome.failed WireErrorCode.disconnected)) {
                closes = c.closes + 1;
              })
              ClientState.disconnected)
    closing c s =
        let d = settle_connect c (Outcome.failed WireErrorCode.disconnected) in
        same-IsSettled request_id distinct n d _ refl refl refl refl
          (settle_connect-IsSettled request_id distinct n c _ s)

    transition-IsSettled :
        (now : ℕ) (state : ClientState) (e : ClientEvent) (is_open : Bool) (c : WireClient)
        → Settled n c
        → Settled n (transition codec now state e is_open c)
    unfolding transition
    transition-IsSettled now ClientState.disconnected ClientEvent.connect_requested is_open c s =
        same-IsSettled request_id distinct n c _ refl refl refl refl s
    transition-IsSettled now ClientState.disconnected ClientEvent.disconnect_requested is_open c s =
        refused-IsSettled request_id distinct n c _ _ s
    transition-IsSettled now ClientState.disconnected ClientEvent.closed is_open c s = s
    transition-IsSettled now ClientState.disconnected ClientEvent.errored is_open c s = s
    transition-IsSettled now ClientState.disconnected ClientEvent.opened is_open c s = s
    transition-IsSettled now ClientState.disconnected ClientEvent.ping_requested is_open c s = s
    transition-IsSettled now ClientState.disconnected (ClientEvent.command_sent id out) is_open c
          s =
        s
    transition-IsSettled now ClientState.disconnected (ClientEvent.frame line) is_open c s = s
    transition-IsSettled now ClientState.connecting ClientEvent.connect_requested is_open c s = s
    transition-IsSettled now ClientState.connecting ClientEvent.disconnect_requested is_open c s =
        refused-IsSettled request_id distinct n c _ _ s
    transition-IsSettled now ClientState.connecting ClientEvent.closed is_open c s =
        refused-IsSettled request_id distinct n c _ _ s
    transition-IsSettled now ClientState.connecting ClientEvent.errored is_open c s =
        settle_connect-IsSettled request_id distinct n c _ s
    transition-IsSettled now ClientState.connecting ClientEvent.opened true c s =
        same-IsSettled request_id distinct n c _ refl refl refl refl s
    transition-IsSettled now ClientState.connecting ClientEvent.opened false c s =
        refused-IsSettled request_id distinct n c _ _ s
    transition-IsSettled now ClientState.connecting ClientEvent.ping_requested is_open c s = s
    transition-IsSettled now ClientState.connecting (ClientEvent.command_sent id out) is_open c s =
        s
    transition-IsSettled now ClientState.connecting (ClientEvent.frame line) is_open c s = s
    transition-IsSettled now ClientState.handshaking ClientEvent.connect_requested is_open c s = s
    transition-IsSettled now ClientState.handshaking ClientEvent.disconnect_requested is_open c s =
        closing c s
    transition-IsSettled now ClientState.handshaking ClientEvent.closed is_open c s =
        refused-IsSettled request_id distinct n c _ _ s
    transition-IsSettled now ClientState.handshaking ClientEvent.errored is_open c s = s
    transition-IsSettled now ClientState.handshaking ClientEvent.opened is_open c s = s
    transition-IsSettled now ClientState.handshaking ClientEvent.ping_requested is_open c s = s
    transition-IsSettled now ClientState.handshaking (ClientEvent.command_sent id out) is_open c s =
        s
    transition-IsSettled now ClientState.handshaking (ClientEvent.frame line) is_open c s =
        on_frame-IsSettled c line handle_reply
          (λ f. handle_reply-IsSettled request_id distinct n c f s) s
    transition-IsSettled now ClientState.connected ClientEvent.connect_requested is_open c s = s
    transition-IsSettled now ClientState.connected ClientEvent.disconnect_requested is_open c s =
        closing c s
    transition-IsSettled now ClientState.connected ClientEvent.closed is_open c s =
        same-IsSettled request_id distinct n (fail_all_pending c) _ refl refl refl refl
          (fail_all_pending-IsSettled request_id distinct n c s)
    transition-IsSettled now ClientState.connected ClientEvent.errored is_open c s = s
    transition-IsSettled now ClientState.connected ClientEvent.opened is_open c s = s
    transition-IsSettled now ClientState.connected ClientEvent.ping_requested true c s =
        same-IsSettled request_id distinct n c _ refl refl refl refl s
    transition-IsSettled now ClientState.connected ClientEvent.ping_requested false c s = s
    transition-IsSettled now ClientState.connected (ClientEvent.command_sent id out) true c s =
        same-IsSettled request_id distinct n c _ refl refl refl refl s
    transition-IsSettled now ClientState.connected (ClientEvent.command_sent id out) false c s =
        resolve_response-IsSettled request_id distinct n c id _ s
    transition-IsSettled now ClientState.connected (ClientEvent.frame line) is_open c s =
        on_frame-IsSettled c line (handle_frame now)
          (λ f. handle_frame-IsSettled request_id distinct n now c f s) s

    take_turn-IsSettled :
        (now : ℕ) (is_open : Bool) (queue : List ClientEvent) (c : WireClient)
        → Settled n c
        → Settled n (take_turn codec request_id now is_open queue c)
    take_turn-IsSettled now is_open [] c s = s
    take_turn-IsSettled now is_open (e ∷ es) c s =
        transition-IsSettled now c.state e is_open (record c { queue = es })
          (same-IsSettled request_id distinct n c _ refl refl refl refl s)

    heartbeat-IsSettled :
        (now : ℕ) (state : ClientState) (c : WireClient)
        → Settled n c
        → Settled n (heartbeat now state c)
    heartbeat-IsSettled now ClientState.connected c s = at (ltb dead_after (now - c.last_pong_at))
      where
        at :
            (dead : Bool)
            → Settled n (
                if dead
                then record c { closes = c.closes + 1 }
                else enqueue c ClientEvent.ping_requested)
        at true = same-IsSettled request_id distinct n c _ refl refl refl refl s
        at false = same-IsSettled request_id distinct n c _ refl refl refl refl s
    heartbeat-IsSettled now ClientState.disconnected c s = s
    heartbeat-IsSettled now ClientState.connecting c s = s
    heartbeat-IsSettled now ClientState.handshaking c s = s

    -- A new request waits and is pending.
    requested-IsSettled :
        (c : WireClient) (out : String)
        → Settled n c
        → Settled (suc n) (request codec request_id ClientState.connected c out)
    unfolding request
    requested-IsSettled c out s =
        let id = request_id (suc c.seq) in
        record {
          numbered = ap suc s.numbered;
          once = λ x.
              let total : count x c.awaiting + count x (answered c.settled)
                  ≡ count x (issued request_id n) =
                s.once x in
              let waits : count x (c.awaiting ++ id ∷ []) ≡ count x c.awaiting + count x (id ∷ []) =
                count-append x c.awaiting (id ∷ []) in
              let added : count x (issued request_id n ++ id ∷ [])
                  ≡ count x (issued request_id n) + count x (id ∷ []) =
                count-append x (issued request_id n) (id ∷ []) in
              let same : count x (issued request_id n ++ id ∷ [])
                  ≡ count x (issued request_id (suc n)) =
                ap (λ k. count x (issued request_id n ++ request_id (suc k) ∷ [])) s.numbered in
              omega (arith, total, waits, added, same);
          tracked = λ x.
              mem?-append x id c.awaiting
              ∙ ap (λ b. if b then true else str_eq id x) (s.tracked x)
              ∙ sym (mem?-append x id c.pending);
        }

  -- The number of requests is the counter's.
  own : (n : ℕ) (c : WireClient) → Settled n c → Settled c.seq c
  own n c s = subst (λ k. Settled k c) (sym s.numbered) s

  requests-IsSettled :
      (state : ClientState) (c : WireClient) (out : String)
      → Settled c.seq c
      → Settled (request codec request_id state c out).seq (request codec request_id state c out)
  unfolding request
  requests-IsSettled ClientState.connected c out s =
      own (suc c.seq) (request codec request_id ClientState.connected c out)
        (requested-IsSettled c.seq c out s)
  requests-IsSettled ClientState.disconnected c out s = s
  requests-IsSettled ClientState.connecting c out s = s
  requests-IsSettled ClientState.handshaking c out s = s

  perform-IsSettled :
      (c : WireClient) (call : Call)
      → Settled c.seq c
      → Settled (perform codec request_id c call).seq (perform codec request_id c call)
  unfolding perform connect disconnect
  perform-IsSettled c (Call.requests out) s = requests-IsSettled c.state c out s
  perform-IsSettled c (Call.times_out id) s =
      own c.seq _ (time_out-IsSettled request_id distinct c.seq c id s)
  perform-IsSettled c (Call.connects now) s =
      own c.seq _ (same-IsSettled request_id distinct c.seq c _ refl refl refl refl s)
  perform-IsSettled c Call.disconnects s = own c.seq _ (
      same-IsSettled request_id distinct c.seq (fail_all_pending c) _ refl refl refl refl
        (fail_all_pending-IsSettled request_id distinct c.seq c s))
  perform-IsSettled c (Call.brings e) s =
      own c.seq _ (same-IsSettled request_id distinct c.seq c _ refl refl refl refl s)
  perform-IsSettled c (Call.ticks now) s = own c.seq _ (heartbeat-IsSettled c.seq now c.state c s)
  perform-IsSettled c (Call.turns now is_open) s =
      own c.seq _ (take_turn-IsSettled c.seq now is_open c.queue c s)

  all-IsSettled :
      (c : WireClient) (calls : List Call)
      → Settled c.seq c
      → Settled (perform_all codec request_id c calls).seq (perform_all codec request_id c calls)
  unfolding perform_all
  all-IsSettled c [] s = s
  all-IsSettled c (call ∷ calls) s =
      all-IsSettled (perform codec request_id c call) calls (perform-IsSettled c call s)

-- Where requests have different identifiers, over any calls, socket events and turns of the machine:
-- every request that was accepted either waits or was answered, exactly once, and the requests that
-- wait are the pending ones.
pub perform_all-IsSettled :
    (codec : Codec) (request_id : ℕ → String)
    (distinct : (m n : ℕ) → request_id m ≡ request_id n → m ≡ n) (calls : List Call) (id : String)
    → let c = perform_all codec request_id new_client calls in
      (count id c.awaiting + count id (answered c.settled) ≡ count id (issued request_id c.seq))
      × (count id (issued request_id c.seq) ≤ 1)
      × (mem? id c.awaiting ≡ mem? id c.pending)
perform_all-IsSettled codec request_id distinct calls id =
    let s =
      all-IsSettled request_id distinct codec new_client calls
        (record { numbered = refl; once = λ x. refl; tracked = λ x. refl }) in
    (
      s.once id,
      single request_id distinct (perform_all codec request_id new_client calls).seq id,
      s.tracked id,
    )
