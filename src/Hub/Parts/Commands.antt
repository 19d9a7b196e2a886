-- ===== src/Hub/Parts/Commands.antt =====
-- hub.ts: a session command that nothing interrupts is its parts.
use saku.Base.{ℕ, String, Bool, true, false, Option, none, some, ◌≡◌, refl, if◌then◌else◌}
use saku.Base.Map.{get}
use saku.Hub.Types.{
  ThreadEnvState, SessionCommand, HubRecord, ThreadInfo, Answer, HubErrorKind, HubEvent, SeamCall,
}
use saku.Hub.Registry.{list, to_info, set_env}
use saku.Hub.IdleStop.{Hub, call, notify, emit_info, arm, disarm, is_ready}
use saku.Hub.Core.{
  on_registry, resolve_thread, is_read_only, EnvProvisioning, provisioned_registry, and_then,
  provision, ensure_env, forward, run_session_command,
}
use saku.Hub.Awaits.{
  env_begins, command_begins, env_fails, env_comes, forwards, env_told, at_thread, hub_step,
}
use saku.Hub.Calls.{HubCall, handle, handle_all}
use saku.Hub.Parts.{reply_of, told_of, env_of, gate_of, command_of, parts}

replied :
    (h : Hub) (id : String) (command : SessionCommand) (reply : Answer (String × ℕ))
    → handle_all (call h (SeamCall.worker_command id command)) (reply_of id reply)
      ≡ (forward h id command reply).0
unfolding handle_all handle hub_step forward
replied h id command (Answer.fail kind) = refl
replied h id command (Answer.ok (payload, n)) = refl

pub run_session_command-parts :
    (h : Hub) (input : String) (command : SessionCommand) (outcome : Option EnvProvisioning)
    (reply : Answer (String × ℕ))
    → handle_all h (parts h (HubCall.runs input command outcome reply))
      ≡ (run_session_command h input command outcome reply).0
unfolding handle_all handle hub_step parts at_thread command_begins env_begins env_fails env_comes
    env_told forwards run_session_command ensure_env provision emit_info call disarm
run_session_command-parts h input command outcome reply =
    at (resolve_thread (list h.registry) input)
  where
    told :
        (id own : String) (g : Hub) (info : Option ThreadInfo)
        → handle_all
            (and_then
              (elim info as (λ _. Hub × Answer ThreadInfo) [
                | none ↦ (g, Answer.fail HubErrorKind.registry)
                | some info ↦ (notify g (HubEvent.thread_changed info), Answer.ok info)
              ])
              (λ g _. (call (arm g own) (SeamCall.worker_command id command), Answer.ok tt))).0
            (told_of id reply info)
          ≡ (and_then
              (and_then
                (elim info as (λ _. Hub × Answer ThreadInfo) [
                  | none ↦ (g, Answer.fail HubErrorKind.registry)
                  | some info ↦ (notify g (HubEvent.thread_changed info), Answer.ok info)
                ])
                (λ g _. (arm g own, Answer.ok tt)))
              (λ h' _. forward h' id command reply)).0
    told id own g none = refl
    told id own g (some info) =
        replied (arm (notify g (HubEvent.thread_changed info)) own) id command reply

    failed :
        (id own : String) (g : Hub) (info : Option ThreadInfo)
        → (elim info as (λ _. Hub × Answer ThreadInfo) [
          | none ↦ (g, Answer.fail HubErrorKind.registry)
          | some info ↦ (notify g (HubEvent.thread_changed info), Answer.ok info)
        ]).0
          ≡ (and_then {B = String}
              (and_then {B = Unit {0}}
                (elim info as (λ _. Hub × Answer ThreadInfo) [
                  | none ↦ (g, Answer.fail HubErrorKind.registry)
                  | some info ↦ (notify g (HubEvent.thread_changed info), Answer.ok info)
                ])
                (λ h'' _. (h'', Answer.fail HubErrorKind.provisioner)))
              (λ h' _. forward h' id command reply)).0
    failed id own g none = refl
    failed id own g (some info) = refl

    asked : HubRecord → Hub
    asked w =
        call (disarm h w.id) (SeamCall.provisioner_ensure w.id w.remote_machine_id w.env_handle)

    env :
        (id : String) (w : HubRecord) (outcome : Option EnvProvisioning) (ready : Bool)
        → handle_all (env_begins h w ready) (env_of h id command outcome reply w ready)
          ≡ (and_then
              (if ready
                then (
                  arm (call h (SeamCall.worker_set_env_handle w.id w.env_handle)) w.id,
                  Answer.ok tt,
                )
                else provision h w outcome)
              (λ h' _. forward h' id command reply)).0
    env id w outcome true =
        replied (arm (call h (SeamCall.worker_set_env_handle w.id w.env_handle)) w.id) id command
          reply
    env id w none false =
        failed id w.id (on_registry (asked w) (set_env h.registry w.id ThreadEnvState.error))
          (to_info (set_env h.registry w.id ThreadEnvState.error) w.id)
    env id w (some p) false =
        told id w.id
          (call (on_registry (asked w) (provisioned_registry h.registry w.id p))
            (SeamCall.worker_set_env_handle w.id p.handle))
          (to_info (provisioned_registry h.registry w.id p) w.id)

    gated :
        (id : String) (w : HubRecord) (reads : Bool)
        → handle_all
            (if reads
              then call h (SeamCall.worker_command id command)
              else env_begins h w (is_ready w.env))
            (gate_of h id command outcome reply (some w) reads)
          ≡ (if reads
              then forward h id command reply
              else and_then (ensure_env h w outcome) (λ h' _. forward h' id command reply)).0
    gated id w true = replied h id command reply
    gated id w false = env id w outcome (is_ready w.env)

    found_at :
        (id : String) (found : Option HubRecord)
        → handle_all
            (command_begins h id command found)
            (gate_of h id command outcome reply found (is_read_only command))
          ≡ (elim found as (λ _. Hub × Answer String) [
            | none ↦ (h, Answer.fail HubErrorKind.registry)
            | some r ↦
                if is_read_only command
                then forward h id command reply
                else and_then (ensure_env h r outcome) (λ h' _. forward h' id command reply)
          ]).0
    found_at id none = refl
    found_at id (some w) = gated id w (is_read_only command)

    at :
        (found : Answer HubRecord)
        → handle_all
            (at_thread h (λ id. command_begins h id command (get id h.registry.records)) found)
            (command_of h command outcome reply found)
          ≡ (elim found as (λ _. Hub × Answer String) [
            | Answer.fail kind ↦ (h, Answer.fail kind)
            | Answer.ok r ↦ elim (get r.id h.registry.records) as (λ _. Hub × Answer String) [
              | none ↦ (h, Answer.fail HubErrorKind.registry)
              | some v ↦
                  if is_read_only command
                  then forward h r.id command reply
                  else and_then (ensure_env h v outcome) (λ h' _. forward h' r.id command reply)
            ]
          ]).0
    at (Answer.fail kind) = refl
    at (Answer.ok r) = found_at r.id (get r.id h.registry.records)
