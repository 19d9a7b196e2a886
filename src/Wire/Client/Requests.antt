-- ===== src/Wire/Client/Requests.antt =====
-- client.ts: the requests of a connection over any history.
use saku.Base.{
  ℕ, zero, suc, ◌+◌, ◌≤◌, ◌<◌, String, Bool, true, false, Option, none, some, List, [], ◌∷◌, ◌++◌,
  ◌≡◌, refl, sym, ap, ◌∙◌, subst, str_eq, if◌then◌else◌, mem?, arith, Bool-cases, inl, inr, eq_iff,
}
use saku.Wire.Frames.{ServerFrame}
use saku.Wire.Client.{
  WireErrorCode, Outcome, ClientState, WireClient, become, delete, settle, fail_all_pending,
  resolve_response, settle_connect, handle_frame, handle_reply, time_out,
}
use saku.Wire.Client.Settled.{
  count, answered, count-append, mem?-delete, mem?-delete_absent, settle-Once, settle_awaiting,
  settle_pending, settle_seq, settle_all-Once, settle_all_awaiting, settle_all_pending,
  settle_all_seq,
}

-- The identifiers of the first n requests.
abbrev pub issued : (ℕ → String) → ℕ → List String
issued request_id zero = []
issued request_id (suc n) = issued request_id n ++ request_id (suc n) ∷ []

module _ (request_id : ℕ → String)
    (distinct : (m n : ℕ) → request_id m ≡ request_id n → m ≡ n) where
  not_issued : (n m : ℕ) → n < m → count (request_id m) (issued request_id n) ≡ 0
  not_issued zero m h = refl
  not_issued (suc n) m h =
      count-append (request_id m) (issued request_id n) (request_id (suc n) ∷ [])
      ∙ at (str_eq (request_id (suc n)) (request_id m)) refl (not_issued n m (omega arith))
    where
      at :
          (b : Bool)
          → str_eq (request_id (suc n)) (request_id m) ≡ b
          → count (request_id m) (issued request_id n) ≡ 0
          → count (request_id m) (issued request_id n) + (if b then 1 else 0) ≡ 0
      at true same earlier =
          absurd (
            omega (arith, distinct (suc n) m ((eq_iff (request_id (suc n)) (request_id m)).0 same)))
      at false _ earlier = omega (arith, earlier)

  pub single : (n : ℕ) (id : String) → count id (issued request_id n) ≤ 1
  single zero id = omega arith
  single (suc n) id =
      at (str_eq (request_id (suc n)) id) refl
        (count-append id (issued request_id n) (request_id (suc n) ∷ [])) (single n id)
    where
      at :
          (b : Bool)
          → str_eq (request_id (suc n)) id ≡ b
          → count id (issued request_id (suc n))
            ≡ count id (issued request_id n) + (if b then 1 else 0)
          → count id (issued request_id n) ≤ 1
          → count id (issued request_id (suc n)) ≤ 1
      at true same split earlier =
          let fresh : count id (issued request_id n) ≡ 0 =
            subst (λ t. count t (issued request_id n) ≡ 0) ((eq_iff (request_id (suc n)) id).0 same)
              (not_issued n (suc n) (omega arith)) in
          omega (arith, split, fresh)
      at false _ split earlier = omega (arith, split, earlier)

  -- After n requests: each waits or was answered once, and the ones that wait are the pending ones.
  pub record IsSettled (n : ℕ) (c : WireClient) : Type 0 where
    pub numbered : c.seq ≡ n
    pub once :
        (id : String)
        → count id c.awaiting + count id (answered c.settled) ≡ count id (issued request_id n)
    pub tracked : (id : String) → mem? id c.awaiting ≡ mem? id c.pending

  module _ (n : ℕ) where
    pub fail_all_pending-IsSettled :
        (c : WireClient) → IsSettled n c → IsSettled n (fail_all_pending c)
    unfolding fail_all_pending
    fail_all_pending-IsSettled c s =
        let bare = record c { pending = [] } in
        let outcome = Outcome.failed WireErrorCode.disconnected in
        record {
          numbered = settle_all_seq bare c.pending outcome ∙ s.numbered;
          once = settle_all-Once (issued request_id n) (single n) bare c.pending outcome s.once;
          tracked = λ id.
              settle_all_awaiting bare c.pending outcome id
              ∙ at (mem? id c.pending) (mem? id c.awaiting) (s.tracked id)
              ∙ sym (ap (mem? id) (settle_all_pending bare c.pending outcome));
        }
      where
        at : (p a : Bool) → a ≡ p → (if p then false else a) ≡ false
        at true a h = refl
        at false a h = h

    -- A pending request is answered and forgotten.
    pub removed-IsSettled :
        (c : WireClient) (id : String) (outcome : Outcome)
        → IsSettled n c
        → IsSettled n (settle (record c { pending = delete id c.pending }) id outcome)
    removed-IsSettled c id outcome s =
        let next = record c { pending = delete id c.pending } in
        record {
          numbered = settle_seq next id outcome ∙ s.numbered;
          once = settle-Once (issued request_id n) (single n) next id outcome s.once;
          tracked = λ x.
              settle_awaiting next id outcome x
              ∙ ap (λ b. if str_eq id x then false else b) (s.tracked x)
              ∙ sym (mem?-delete x id c.pending)
              ∙ sym (ap (mem? x) (settle_pending next id outcome));
        }

    pub resolve_response-IsSettled :
        (c : WireClient) (id : String) (outcome : Outcome)
        → IsSettled n c
        → IsSettled n (resolve_response c id outcome)
    unfolding resolve_response
    resolve_response-IsSettled c id outcome s = elim (Bool-cases (mem? id c.pending)) [
      | inl present ↦ rw (present, resolve_response) (removed-IsSettled c id outcome s)
      | inr absent ↦
          rw (absent, resolve_response)
            (record {
              numbered = s.numbered;
              once = s.once;
              tracked = λ x. s.tracked x ∙ mem?-delete_absent x id c.pending absent;
            })
    ]

    pub time_out-IsSettled :
        (c : WireClient) (id : String) → IsSettled n c → IsSettled n (time_out c id)
    unfolding time_out
    time_out-IsSettled c id s = elim (Bool-cases (mem? id c.awaiting)) [
      | inl present ↦
          rw (present, time_out) (removed-IsSettled c id (Outcome.failed WireErrorCode.timeout) s)
      | inr absent ↦ rw (absent, time_out) s
    ]

    -- The parts that the requests are in, and nothing else of a client.
    pub same-IsSettled :
        (c d : WireClient)
        → d.seq ≡ c.seq
        → d.awaiting ≡ c.awaiting
        → d.settled ≡ c.settled
        → d.pending ≡ c.pending
        → IsSettled n c
        → IsSettled n d
    same-IsSettled c d seq awaiting settled pending s = record {
      numbered = seq ∙ s.numbered;
      once = λ id.
          ap (λ a. count id a + count id (answered d.settled)) awaiting
          ∙ ap (λ t. count id c.awaiting + count id (answered t)) settled
          ∙ s.once id;
      tracked = λ id. ap (mem? id) awaiting ∙ s.tracked id ∙ sym (ap (mem? id) pending);
    }

    pub settle_connect-IsSettled :
        (c : WireClient) (outcome : Outcome)
        → IsSettled n c
        → IsSettled n (settle_connect c outcome)
    unfolding settle_connect
    settle_connect-IsSettled c outcome s = at c.connect_ref
      where
        at :
            (waiting : Option ℕ)
            → IsSettled n (elim waiting as (λ _. WireClient) [
              | none ↦ c
              | some k ↦ record c {
                connect_ref = none;
                connected_as = c.connected_as ++ (k, outcome) ∷ [];
              }
            ])
        at none = s
        at (some k) = same-IsSettled c _ refl refl refl refl s

    pub handle_frame-IsSettled :
        (now : ℕ) (c : WireClient) (f : ServerFrame)
        → IsSettled n c
        → IsSettled n (handle_frame now c f)
    unfolding handle_frame
    handle_frame-IsSettled now c (ServerFrame.error message) s =
        same-IsSettled c _ refl refl refl refl s
    handle_frame-IsSettled now c (ServerFrame.event thread_id e) s =
        same-IsSettled c _ refl refl refl refl s
    handle_frame-IsSettled now c (ServerFrame.hello_ok pid version) s =
        same-IsSettled c _ refl refl refl refl s
    handle_frame-IsSettled now c ServerFrame.pong s = same-IsSettled c _ refl refl refl refl s
    handle_frame-IsSettled now c (ServerFrame.response_ok id payload) s =
        resolve_response-IsSettled c id _ s
    handle_frame-IsSettled now c (ServerFrame.response_error id message) s =
        resolve_response-IsSettled c id _ s
    handle_frame-IsSettled now c (ServerFrame.thread_changed thread) s =
        same-IsSettled c _ refl refl refl refl s

    pub become-IsSettled :
        (c : WireClient) (state : ClientState) → IsSettled n c → IsSettled n (become c state)
    become-IsSettled c state s = same-IsSettled c _ refl refl refl refl s

    pub refused-IsSettled :
        (c : WireClient) (code : WireErrorCode) (state : ClientState)
        → IsSettled n c
        → IsSettled n (become (settle_connect c (Outcome.failed code)) state)
    refused-IsSettled c code state s =
        become-IsSettled (settle_connect c (Outcome.failed code)) state
          (settle_connect-IsSettled c (Outcome.failed code) s)

    pub handle_reply-IsSettled :
        (c : WireClient) (f : ServerFrame) → IsSettled n c → IsSettled n (handle_reply c f)
    handle_reply-IsSettled c (ServerFrame.hello_ok pid version) s =
        let d = settle_connect c (Outcome.succeeded version) in
        same-IsSettled d _ refl refl refl refl
          (settle_connect-IsSettled c (Outcome.succeeded version) s)
    handle_reply-IsSettled c (ServerFrame.error message) s = refused-IsSettled c _ _ s
    handle_reply-IsSettled c (ServerFrame.event _ _) s = s
    handle_reply-IsSettled c ServerFrame.pong s = s
    handle_reply-IsSettled c (ServerFrame.response_ok _ _) s = s
    handle_reply-IsSettled c (ServerFrame.response_error _ _) s = s
    handle_reply-IsSettled c (ServerFrame.thread_changed _) s = s
