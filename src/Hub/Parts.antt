-- ===== src/Hub/Parts.antt =====
-- hub.ts and idle-stop.ts: the parts of a call that waits, where nothing comes in between.
pub mod Commands
pub mod Whole
use saku.Base.{
  ℕ, String, Bool, true, false, Option, none, some, List, [], ◌∷◌, ◌≡◌, refl, ◌&&◌, if◌then◌else◌,
}
use saku.Base.Map.{get}
use saku.Hub.Types.{
  ThreadEnvState, SessionCommand, HubRecord, ThreadInfo, Answer, HubErrorKind, HubEvent, SeamCall,
}
use saku.Hub.Registry.{NewThread, new_record, delete, list, to_info, state_of, set_env}
use saku.Hub.IdleStop.{
  Hub, call, notify, emit_info, arm, disarm, suspend, fire, is_idle, is_ready, can_suspend,
}
use saku.Hub.Core.{
  on_registry, resolve_thread, create_thread, tear_down, delete_thread, is_read_only,
  EnvProvisioning, provisioned_registry, and_then, provision, ensure_env, forward,
  run_session_command,
}
use saku.Hub.Awaits.{
  fire_checks, fire_begins, fire_stops, create_begins, create_ends, delete_begins, delete_releases,
  delete_ends, env_begins, command_begins, env_fails, env_comes, forwards, env_told, at_thread,
  HubStep, hub_step,
}
use saku.Hub.Calls.{HubCall, handle, handle_all}

-- Whether `fire` gets to the release.
unfoldable pub releases : Hub → String → Option HubRecord → Bool
releases h id none = false
releases h id (some r) = is_idle (state_of h.registry id) && can_suspend r

abbrev pub teardown_of : String → Option HubRecord → Option ThreadInfo → List HubCall
teardown_of id found none = []
teardown_of id none (some info) = HubCall.resumes (HubStep.ends_delete id info) ∷ []
teardown_of id (some r) (some info) =
    HubCall.resumes (HubStep.releases_delete id r)
    ∷ HubCall.resumes (HubStep.ends_delete id info)
    ∷ []

abbrev pub deletion_of : Hub → Answer HubRecord → List HubCall
deletion_of h (Answer.fail kind) = []
deletion_of h (Answer.ok r) =
    teardown_of r.id (get r.id h.registry.records) (to_info h.registry r.id)

abbrev pub reply_of : String → Answer (String × ℕ) → List HubCall
reply_of id (Answer.fail kind) = []
reply_of id (Answer.ok (payload, n)) = HubCall.resumes (HubStep.replies_command id n) ∷ []

-- Behind the checks of a command: the handle of a ready env, or the provisioner's answer, and the reply.
abbrev pub told_of : String → Answer (String × ℕ) → Option ThreadInfo → List HubCall
told_of id reply none = []
told_of id reply (some info) = reply_of id reply

abbrev pub env_of :
    Hub
    → (id : String) → SessionCommand
    → Option EnvProvisioning
    → Answer (String × ℕ)
    → HubRecord
    → (ready : Bool) → List HubCall
env_of h id command outcome reply w true =
    HubCall.resumes (HubStep.forwards_command w.id id command) ∷ reply_of id reply
env_of h id command none reply w false = HubCall.resumes (HubStep.fails_env w.id) ∷ []
env_of h id command (some p) reply w false =
    HubCall.resumes (HubStep.comes_env w.id p)
    ∷ HubCall.resumes (HubStep.tells_env w.id id command)
    ∷ told_of id reply (to_info (provisioned_registry h.registry w.id p) w.id)

abbrev pub gate_of :
    Hub
    → (id : String) → SessionCommand
    → Option EnvProvisioning
    → Answer (String × ℕ)
    → Option HubRecord
    → (reads : Bool) → List HubCall
gate_of h id command outcome reply none reads = []
gate_of h id command outcome reply (some w) true = reply_of id reply
gate_of h id command outcome reply (some w) false =
    env_of h id command outcome reply w (is_ready w.env)

abbrev pub command_of :
    Hub
    → SessionCommand
    → Option EnvProvisioning
    → Answer (String × ℕ)
    → Answer HubRecord
    → List HubCall
command_of h command outcome reply (Answer.fail kind) = []
command_of h command outcome reply (Answer.ok r) =
    gate_of h r.id command outcome reply (get r.id h.registry.records) (is_read_only command)

-- The parts of the calls that wait, by how their checks and the answers that they wait for come out.
unfoldable pub parts : Hub → HubCall → List HubCall
parts h (HubCall.fires id) =
    HubCall.resumes (HubStep.begins_fire id)
    ∷ (if releases h id (get id h.registry.records)
        then HubCall.resumes (HubStep.releases_fire id)
          ∷ HubCall.resumes (HubStep.stops_fire id)
          ∷ []
        else [])
parts h (HubCall.creates id now input worker_created) =
    HubCall.begins_create id now input
    ∷ HubCall.resumes (HubStep.ends_create id worker_created)
    ∷ []
parts h (HubCall.deletes input) =
    HubCall.resumes (HubStep.begins_delete input)
    ∷ deletion_of h (resolve_thread (list h.registry) input)
parts h (HubCall.runs input command outcome reply) =
    HubCall.resumes (HubStep.begins_command input command)
    ∷ command_of h command outcome reply (resolve_thread (list h.registry) input)
parts h c = c ∷ []
