-- ===== src/Hub/Awaits.antt =====
-- hub.ts and idle-stop.ts: the calls that wait for a seam, cut where they wait. A report, a timer or
-- another call can run while a call waits; a history that has these parts in the order in which they run
-- says so. What a part keeps from an earlier part of its call is an argument.
use saku.Base.{ℕ, String, Bool, true, false, Option, none, some, if◌then◌else◌}
use saku.Base.Map.{get}
use saku.Hub.Types.{
  ThreadEnvState, HubRecord, ThreadInfo, HubEvent, SeamCall, SessionCommand, Answer,
}
use saku.Hub.Registry.{
  NewThread, new_record, create, delete, list, set_env, set_tail_seq, to_info, state_of,
}
use saku.Hub.IdleStop.{Hub, call, notify, emit_info, arm, disarm, is_ready, is_idle, can_suspend}
use saku.Hub.Core.{
  resolve_thread, on_registry, is_read_only, EnvProvisioning, provisioned_registry, and_then,
}

-- `fire` up to the release of the machine, for the record that the registry has.
unfoldable pub fire_checks : Hub → String → Option HubRecord → Hub
fire_checks h id none = h
fire_checks h id (some r) =
    if is_idle (state_of h.registry id)
    then if can_suspend r
      then call h (SeamCall.provisioner_release id r.remote_machine_id r.env_handle)
      else h
    else arm h id

unfoldable pub fire_begins : Hub → String → Hub
fire_begins h id = fire_checks (disarm h id) id (get id h.registry.records)

-- `fire` behind the worker's answer to the cleared handle.
unfoldable pub fire_stops : Hub → String → Hub
fire_stops h id = (emit_info (on_registry h (set_env h.registry id ThreadEnvState.stopped)) id).0

-- `ensureEnv` up to its first answer.
unfoldable pub env_begins : Hub → HubRecord → Bool → Hub
env_begins h r true = call h (SeamCall.worker_set_env_handle r.id r.env_handle)
env_begins h r false =
    call (disarm h r.id) (SeamCall.provisioner_ensure r.id r.remote_machine_id r.env_handle)

-- `runSessionCommand` up to its first answer, for the record that the registry has.
unfoldable pub command_begins : Hub → String → SessionCommand → Option HubRecord → Hub
command_begins h id command none = h
command_begins h id command (some r) =
    if is_read_only command
    then call h (SeamCall.worker_command id command)
    else env_begins h r (is_ready r.env)

-- `ensureEnv` behind a provisioner that failed.
unfoldable pub env_fails : Hub → String → Hub
env_fails h id = (emit_info (on_registry h (set_env h.registry id ThreadEnvState.error)) id).0

-- `ensureEnv` behind a provisioner that succeeded.
unfoldable pub env_comes : Hub → String → EnvProvisioning → Hub
env_comes h id p =
    call (on_registry h (provisioned_registry h.registry id p))
      (SeamCall.worker_set_env_handle id p.handle)

-- The command behind the handle of an env that was ready, and behind that of a new one. The record gives
-- the identifier for the window and the broadcast, and the call the one for the worker.
unfoldable pub forwards : Hub → (own id : String) → SessionCommand → Hub
forwards h own id command = call (arm h own) (SeamCall.worker_command id command)

unfoldable pub env_told : Hub → (own id : String) → SessionCommand → Hub
env_told h own id command =
    (and_then (emit_info h own) (λ g _. (forwards g own id command, Answer.ok tt))).0

-- `createThread` up to the worker's answer, and behind it.
unfoldable pub create_begins : Hub → String → ℕ → NewThread → Hub
create_begins h id now input =
    call (on_registry h (create h.registry (new_record id now input))) (SeamCall.worker_create id)

unfoldable pub create_ends : Hub → String → Bool → Hub
create_ends h id true = (emit_info h id).0
create_ends h id false = on_registry h (delete h.registry id)

-- `deleteThread` up to the worker's answer, behind it, and behind the release.
unfoldable pub delete_begins : Hub → String → Option ThreadInfo → Hub
delete_begins h id none = h
delete_begins h id (some info) = call h (SeamCall.worker_delete id)

unfoldable pub delete_releases : Hub → String → HubRecord → Hub
delete_releases h id r =
    call (disarm h id) (SeamCall.provisioner_release id r.remote_machine_id r.env_handle)

unfoldable pub delete_ends : Hub → String → ThreadInfo → Hub
delete_ends h id info = notify (on_registry h (delete h.registry id)) (HubEvent.thread_changed info)

-- `resolveThreadId`, which answers at once, and then the rest of the part.
unfoldable pub at_thread : Hub → (String → Hub) → Answer HubRecord → Hub
at_thread h k (Answer.fail kind) = h
at_thread h k (Answer.ok r) = k r.id

-- The parts of the calls, but for the first part of a creation.
pub data HubStep : Type 0 where
  begins_fire stops_fire releases_fire fails_env : (id : String) → HubStep
  begins_command : (input : String) → SessionCommand → HubStep
  comes_env : (id : String) → EnvProvisioning → HubStep
  forwards_command tells_env : (own id : String) → SessionCommand → HubStep
  replies_command : (id : String) → (tail_seq : ℕ) → HubStep
  ends_create : (id : String) → (worker_created : Bool) → HubStep
  begins_delete : (input : String) → HubStep
  releases_delete : (id : String) → HubRecord → HubStep
  ends_delete : (id : String) → ThreadInfo → HubStep

unfoldable pub hub_step : Hub → HubStep → Hub
hub_step h (HubStep.begins_fire id) = fire_begins h id
hub_step h (HubStep.releases_fire id) = call h (SeamCall.worker_set_env_handle id none)
hub_step h (HubStep.stops_fire id) = fire_stops h id
hub_step h (HubStep.begins_command input command) =
    at_thread h (λ id. command_begins h id command (get id h.registry.records))
      (resolve_thread (list h.registry) input)
hub_step h (HubStep.fails_env id) = env_fails h id
hub_step h (HubStep.comes_env id p) = env_comes h id p
hub_step h (HubStep.forwards_command own id command) = forwards h own id command
hub_step h (HubStep.tells_env own id command) = env_told h own id command
hub_step h (HubStep.replies_command id tail_seq) =
    on_registry h (set_tail_seq h.registry id tail_seq)
hub_step h (HubStep.ends_create id worker_created) = create_ends h id worker_created
hub_step h (HubStep.begins_delete input) =
    at_thread h (λ id. delete_begins h id (to_info h.registry id))
      (resolve_thread (list h.registry) input)
hub_step h (HubStep.releases_delete id r) = delete_releases h id r
hub_step h (HubStep.ends_delete id info) = delete_ends h id info
