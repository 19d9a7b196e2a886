-- ===== src/Hub/Armed/Commands.antt =====
-- hub.ts: what the calls keep of the armed windows.
use saku.Base.{
  ℕ, String, Bool, true, false, Option, none, some, ◌≡◌, refl, sym, ap, ◌∙◌, inl, inr, Bool-cases,
  if◌then◌else◌, str_eq, eq_iff,
}
use saku.Base.Map.{Map, get, remove, has, get-remove}
use saku.Base.Text.{trim, is_empty_text}
use saku.Base.Unique.{get-remove_self}
use saku.Hub.Types.{
  HubRecord, ThreadInfo, ThreadEnvState, SessionCommand, SeamCall, Answer, HubErrorKind, HubEvent,
}
use saku.Hub.Registry.{
  Registry, patch, delete, list, set_env, set_env_handle, set_remote_machine_id, set_tail_seq,
  to_info, info_from,
}
use saku.Hub.IdleStop.{Hub, call, notify, emit_info, arm, disarm, is_ready}
use saku.Hub.Core.{
  resolve_thread, with_thread, on_registry, is_read_only, EnvProvisioning, provisioned_registry,
  and_then, provision, ensure_env, forward, run_session_command, set_archived, tear_down,
  delete_thread, rename_thread,
}
use saku.Hub.Calls.{renamed}
use saku.Hub.Armed.{Suspendable, patch-Suspendable, disarmed-Suspendable, arm-Suspendable}
use saku.Hub.Armed.Reports.{Armed, emit_info-Armed, disarm-Armed}

and_then-Armed :
    {A B : Type 0} (x : Hub × Answer A) (k : Hub → A → Hub × Answer B)
    → Armed x.0
    → ((h : Hub) (a : A) → Armed h → Armed (k h a).0)
    → Armed (and_then x k).0
and_then-Armed (h, Answer.ok a) k w next = next h a w
and_then-Armed (h, Answer.fail e) k w next = w

with_thread-Armed :
    {A : Type 0} (h : Hub) (input : String) (k : String → Hub × Answer A)
    → Armed h
    → ((id : String) → Armed (k id).0)
    → Armed (with_thread h input k).0
with_thread-Armed {A = A} h input k w next = at (resolve_thread (list h.registry) input)
  where
    at :
        (x : Answer HubRecord)
        → Armed
            (elim x as (λ _. Hub × Answer A) [
              | Answer.fail e ↦ (h, Answer.fail e)
              | Answer.ok r ↦ k r.id
            ]).0
    at (Answer.fail e) = w
    at (Answer.ok r) = next r.id

provision-Armed :
    (h : Hub) (r : HubRecord) (outcome : Option EnvProvisioning)
    → Armed h
    → Armed (provision h r outcome).0
unfolding provision call disarm provisioned_registry set_env set_env_handle set_remote_machine_id
provision-Armed h r none w =
    and_then-Armed _ _
      (emit_info-Armed _ r.id (
        disarmed-Suspendable h.registry (remove r.id h.armed) r.id
          (λ r. record r { env = ThreadEnvState.error }) (get-remove_self r.id h.armed)
          (disarm-Armed h r.id w)))
      (λ g _ q. q)
provision-Armed h r (some p) w =
    and_then-Armed _ _
      (emit_info-Armed _ r.id (
        off _ (λ r. record r { env = ThreadEnvState.ready })
          (off _ (λ r. record r { env_handle = p.handle })
            (off h.registry (λ r. record r { remote_machine_id = p.remote_machine_id })
              (disarm-Armed h r.id w)))))
      (λ g _ q. arm-Suspendable g r.id q)
  where
    off :
        (reg : Registry) (fn : HubRecord → HubRecord)
        → Suspendable reg (remove r.id h.armed)
        → Suspendable (patch reg r.id fn) (remove r.id h.armed)
    off reg fn v =
        disarmed-Suspendable reg (remove r.id h.armed) r.id fn (get-remove_self r.id h.armed) v

ensure_env-Armed :
    (h : Hub) (r : HubRecord) (outcome : Option EnvProvisioning)
    → Armed h
    → Armed (ensure_env h r outcome).0
unfolding ensure_env call
ensure_env-Armed h r outcome w = at (is_ready r.env)
  where
    at :
        (b : Bool)
        → Armed
            (if b
              then (
                arm (call h (SeamCall.worker_set_env_handle r.id r.env_handle)) r.id,
                Answer.ok tt,
              )
              else provision h r outcome).0
    at true = arm-Suspendable (call h (SeamCall.worker_set_env_handle r.id r.env_handle)) r.id w
    at false = provision-Armed h r outcome w

forward-Armed :
    (h : Hub) (id : String) (command : SessionCommand) (reply : Answer (String × ℕ))
    → Armed h
    → Armed (forward h id command reply).0
unfolding forward call set_tail_seq
forward-Armed h id command (Answer.fail e) w = w
forward-Armed h id command (Answer.ok (payload, n)) w = w

pub run_session_command-Armed :
    (h : Hub) (input : String) (command : SessionCommand) (outcome : Option EnvProvisioning)
    (reply : Answer (String × ℕ))
    → Armed h
    → Armed (run_session_command h input command outcome reply).0
unfolding run_session_command
run_session_command-Armed h input command outcome reply w =
    with_thread-Armed h input _ w λ id. at id (get id h.registry.records)
  where
    gated :
        (id : String) (r : HubRecord) (b : Bool)
        → Armed
            (if b
              then forward h id command reply
              else and_then (ensure_env h r outcome) (λ h' _. forward h' id command reply)).0
    gated id r true = forward-Armed h id command reply w
    gated id r false =
        and_then-Armed (ensure_env h r outcome) _ (ensure_env-Armed h r outcome w)
          (λ g _ q. forward-Armed g id command reply q)

    at :
        (id : String) (found : Option HubRecord)
        → Armed
            (elim found as (λ _. Hub × Answer String) [
              | none ↦ (h, Answer.fail HubErrorKind.registry)
              | some r ↦
                  if is_read_only command
                  then forward h id command reply
                  else and_then (ensure_env h r outcome) (λ h' _. forward h' id command reply)
            ]).0
    at id none = w
    at id (some r) = gated id r (is_read_only command)

pub set_archived-Armed :
    (h : Hub) (input : String) (a : Option ℕ) → Armed h → Armed (set_archived h input a).0
unfolding set_archived
set_archived-Armed h input a w =
    with_thread-Armed h input _ w λ id. at id (get id h.registry.records)
  where
    at :
        (id : String) (found : Option HubRecord)
        → Armed
            (elim found as (λ _. Hub × Answer ThreadInfo) [
              | none ↦ (h, Answer.fail HubErrorKind.registry)
              | some r ↦
                  emit_info
                    (on_registry h (patch h.registry id (λ r. record r { archived_at = a })))
                    id
            ]).0
    at id none = w
    at id (some r) = emit_info-Armed _ id (patch-Suspendable h.registry h.armed id _ (λ _. refl) w)

pub rename_thread-Armed :
    (h : Hub) (input name : String) → Armed h → Armed (rename_thread h input name).0
unfolding rename_thread
rename_thread-Armed h input name w =
    with_thread-Armed h input _ w λ id. at id (is_empty_text (trim name))
  where
    at :
        (id : String) (b : Bool)
        → Armed
            (if b
              then (h, Answer.fail HubErrorKind.command)
              else emit_info (on_registry h (patch h.registry id (renamed (trim name)))) id).0
    at id true = w
    at id false = emit_info-Armed _ id (patch-Suspendable h.registry h.armed id _ (λ _. refl) w)

-- A record that goes takes no window with it, if the window went before.
pub delete-Suspendable :
    (reg : Registry) (armed : Map (Unit {0})) (id : String)
    → get id armed ≡ none
    → Suspendable reg armed
    → Suspendable (delete reg id) armed
unfolding delete
delete-Suspendable reg armed id off w = at (has id reg.records)
  where
    at :
        (b : Bool)
        → Suspendable
            (if b
              then record {
                records = remove id reg.records;
                states = remove id reg.states;
                tail_seqs = remove id reg.tail_seqs;
                stored = remove id reg.stored;
              }
              else reg)
            armed
    at false = w
    at true = λ j on. elim (Bool-cases (str_eq id j)) [
      | inl same ↦ cc (sym off ∙ ap (λ x. get x armed) ((eq_iff id j).0 same) ∙ on)
      | inr other ↦
          let (q, there, can) = w j on in (q, rw (get-remove id j reg.records, other) there, can)
    ]

pub delete_thread-Armed : (h : Hub) (input : String) → Armed h → Armed (delete_thread h input).0
unfolding delete_thread to_info tear_down call disarm notify
delete_thread-Armed h input w =
    with_thread-Armed h input _ w λ id. at id (get id h.registry.records)
  where
    at :
        (id : String) (found : Option HubRecord)
        → Armed
            (elim (elim found as (λ _. Option ThreadInfo) [
              | none ↦ none
              | some r ↦ some (info_from h.registry id r)
            ])
              as (λ _. Hub × Answer ThreadInfo) [
                | none ↦ (h, Answer.fail HubErrorKind.registry)
                | some info ↦
                    let h' = tear_down h id found in
                    (
                      notify
                          (on_registry h' (delete h'.registry id))
                          (HubEvent.thread_changed info),
                      Answer.ok info,
                    )
              ]).0
    at id none = w
    at id (some r) =
        delete-Suspendable h.registry (remove id h.armed) id (get-remove_self id h.armed)
          (disarm-Armed h id w)
