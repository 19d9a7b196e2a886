-- ===== src/Hub/Overtaken.antt =====
-- hub.ts with idle-stop.ts: a command that comes while the idle-stop trigger waits for the release.
use saku.Base.{String, true, false, Option, none, some, List, [], ◌∷◌, ◌++◌, ◌≡◌, refl, ap, ◌∙◌}
use saku.Base.Map.{get, put, get-put_self}
use saku.Hub.Types.{ThreadEnvState, HubRecord, SeamCall, SessionCommand, Answer}
use saku.Hub.Registry.{Registry, is_sandbox, list, patch, set_env, state_of}
use saku.Hub.IdleStop.{Hub, call, disarm, is_ready, is_idle}
use saku.Hub.Core.{resolve_thread, is_read_only}
use saku.Hub.Awaits.{
  fire_checks, fire_begins, fire_stops, env_begins, command_begins, forwards, at_thread, HubStep,
  hub_step,
}
use saku.Hub.Calls.{HubCall, handle, handle_all, registry-emit_info, registry-arm}
use saku.Hub.Windows.{calls-emit_info, calls-arm}

-- `fire` waits for the release, a command comes, `fire` goes on, and then the command.
abbrev pub overtaking : String → String → SessionCommand → List HubCall
overtaking id input command =
    HubCall.resumes (HubStep.begins_fire id)
    ∷ HubCall.resumes (HubStep.begins_command input command)
    ∷ HubCall.resumes (HubStep.releases_fire id)
    ∷ HubCall.resumes (HubStep.stops_fire id)
    ∷ HubCall.resumes (HubStep.forwards_command id id command)
    ∷ []

-- What both have called before the env is marked.
abbrev asked : Hub → String → HubRecord → Hub
asked h id w =
    call
      (call (call (disarm h id) (SeamCall.provisioner_release id w.remote_machine_id w.env_handle))
        (SeamCall.worker_set_env_handle w.id w.env_handle))
      (SeamCall.worker_set_env_handle id none)

abbrev stopped : Hub → String → HubRecord → Hub
stopped h id w = fire_stops (asked h id w) id

fire_checks-releases :
    (h : Hub) (id : String) (w : HubRecord)
    → is_sandbox w.mode ≡ true
    → is_ready w.env ≡ true
    → is_idle (state_of h.registry id) ≡ true
    → fire_checks h id (some w)
      ≡ call h (SeamCall.provisioner_release id w.remote_machine_id w.env_handle)
unfolding fire_checks
fire_checks-releases h id w sandbox ready idle = rw (idle, sandbox, ready) refl

command_begins-ready :
    (h : Hub) (id : String) (command : SessionCommand) (w : HubRecord)
    → is_ready w.env ≡ true
    → is_read_only command ≡ false
    → command_begins h id command (some w)
      ≡ call h (SeamCall.worker_set_env_handle w.id w.env_handle)
unfolding command_begins env_begins
command_begins-ready h id command w ready writes = rw (writes, ready) refl

overtaking-asked :
    (h : Hub) (input : String) (command : SessionCommand) (r w : HubRecord)
    → resolve_thread (list h.registry) input ≡ Answer.ok r
    → get r.id h.registry.records ≡ some w
    → is_sandbox w.mode ≡ true
    → is_ready w.env ≡ true
    → is_idle (state_of h.registry r.id) ≡ true
    → is_read_only command ≡ false
    → handle_all h (overtaking r.id input command) ≡ forwards (stopped h r.id w) r.id r.id command
unfolding handle_all handle hub_step fire_begins at_thread call disarm
overtaking-asked h input command r w found there sandbox ready idle writes =
    ap (λ (x : Hub). behind (hub_step x (HubStep.begins_command input command))) released
    ∙ ap behind (
        ap (at_thread held (λ id. command_begins held id command (get id h.registry.records))) found
        ∙ ap (command_begins held r.id command) there
        ∙ command_begins-ready held r.id command w ready writes)
  where
    held : Hub
    held = call (disarm h r.id) (SeamCall.provisioner_release r.id w.remote_machine_id w.env_handle)

    behind : Hub → Hub
    behind x =
        forwards (fire_stops (call x (SeamCall.worker_set_env_handle r.id none)) r.id) r.id r.id
          command

    released : fire_begins h r.id ≡ held
    released =
        ap (fire_checks (disarm h r.id) r.id) there
        ∙ fire_checks-releases (disarm h r.id) r.id w sandbox ready idle

env-set_env :
    (reg : Registry) (id : String) (w : HubRecord) (e : ThreadEnvState)
    → get id reg.records ≡ some w
    → get id (set_env reg id e).records ≡ some (record w { env = e })
unfolding set_env patch
env-set_env reg id w e there =
    ap
      (λ (found : Option HubRecord).
        get id
          (elim found as (λ _. Registry) [
            | none ↦ reg
            | some r ↦ record reg {
              records = put id (record r { env = e }) reg.records;
              stored = put r.id (record r { env = e }) reg.stored;
            }
          ]).records)
      there
    ∙ get-put_self id (record w { env = e }) reg.records

-- A command that is no read and that comes while the idle-stop trigger waits for the release of an idle,
-- ready sandbox still finds the env ready: it is forwarded to the worker without being provisioned for,
-- behind the release of the machine and the clearing of its handle, and the env is marked as stopped.
pub overtaking-forwards :
    (h : Hub) (input : String) (command : SessionCommand) (r w : HubRecord)
    → resolve_thread (list h.registry) input ≡ Answer.ok r
    → get r.id h.registry.records ≡ some w
    → is_sandbox w.mode ≡ true
    → is_ready w.env ≡ true
    → is_idle (state_of h.registry r.id) ≡ true
    → is_read_only command ≡ false
    → ((handle_all h (overtaking r.id input command)).calls
        ≡ (((h.calls ++ SeamCall.provisioner_release r.id w.remote_machine_id w.env_handle ∷ [])
              ++ SeamCall.worker_set_env_handle w.id w.env_handle ∷ [])
            ++ SeamCall.worker_set_env_handle r.id none ∷ [])
          ++ SeamCall.worker_command r.id command ∷ [])
      × (get r.id (handle_all h (overtaking r.id input command)).registry.records
          ≡ some (record w { env = ThreadEnvState.stopped }))
unfolding forwards fire_stops call disarm
overtaking-forwards h input command r w found there sandbox ready idle writes =
    let whole = overtaking-asked h input command r w found there sandbox ready idle writes in
    (
      ap (λ (x : Hub). x.calls) whole
          ∙ ap (λ l. l ++ SeamCall.worker_command r.id command ∷ [])
              (calls-arm (stopped h r.id w) r.id ∙ calls-emit_info _ r.id),
      ap (λ (x : Hub). get r.id x.registry.records) whole
          ∙ ap (λ (x : Registry). get r.id x.records)
              (registry-arm (stopped h r.id w) r.id ∙ registry-emit_info _ r.id)
          ∙ env-set_env h.registry r.id w ThreadEnvState.stopped there,
    )
