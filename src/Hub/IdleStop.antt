-- ===== src/Hub/IdleStop.antt =====
-- idle-stop.ts, with the hub's own timers: the windows that are armed. When one of them runs out is
-- the environment's choice, so `fire` is a call like the others. Failures of the seams are swallowed
-- here, so their answers do not matter.
use saku.Base.{String, Bool, true, false, ◌&&◌, none, some, List, [], ◌∷◌, ◌++◌, if◌then◌else◌}
use saku.Base.Map.{Map, get, put, remove}
use saku.Hub.Types.{
  ThreadState, ThreadEnvState, HubRecord, ThreadInfo, HubEvent, SeamCall, HubErrorKind, Answer,
}
use saku.Hub.Registry.{Registry, is_sandbox, state_of, to_info, set_env}

-- The hub: its registry, the armed windows, what it pushed and what it called, oldest first.
pub record Hub : Type 0 where
  pub registry : Registry
  pub armed : Map (Unit {0})
  pub events : List HubEvent
  pub calls : List SeamCall

abbrev pub is_ready : ThreadEnvState → Bool
is_ready ThreadEnvState.ready = true
is_ready _ = false

abbrev pub is_idle : ThreadState → Bool
is_idle ThreadState.idle = true
is_idle _ = false

abbrev pub can_suspend : HubRecord → Bool
can_suspend r = is_sandbox r.mode && is_ready r.env

unfoldable pub call : Hub → SeamCall → Hub
call h c = record h { calls = h.calls ++ c ∷ [] }

unfoldable pub notify : Hub → HubEvent → Hub
notify h e = record h { events = h.events ++ e ∷ [] }

-- `infoOf` and `emitThreadChanged`: a thread that is not there is a registry error.
unfoldable pub emit_info : Hub → String → Hub × Answer ThreadInfo
emit_info h id = elim (to_info h.registry id) [
  | none ↦ (h, Answer.fail HubErrorKind.registry)
  | some info ↦ (notify h (HubEvent.thread_changed info), Answer.ok info)
]

unfoldable pub arm : Hub → String → Hub
arm h id = elim (get id h.registry.records) [
  | none ↦ h
  | some r ↦
      if can_suspend r && is_idle (state_of h.registry id)
      then record h { armed = put id tt h.armed }
      else h
]

unfoldable pub disarm : Hub → String → Hub
disarm h id = record h { armed = remove id h.armed }

-- The writes of `fire` once the machine may be suspended.
unfoldable pub suspend : Hub → String → HubRecord → Hub
suspend h id r =
    let released =
      call (call h (SeamCall.provisioner_release id r.remote_machine_id r.env_handle))
        (SeamCall.worker_set_env_handle id none) in
    let stopped = record released {
      registry = set_env released.registry id ThreadEnvState.stopped;
    } in
    (emit_info stopped id).0

unfoldable pub fire : Hub → String → Hub
fire h id =
    let h' = disarm h id in
    elim (get id h'.registry.records) [
      | none ↦ h'
      | some r ↦
          if is_idle (state_of h'.registry id)
          then if can_suspend r then suspend h' id r else h'
          else arm h' id
    ]

-- The hub's `close` clears every timer.
unfoldable pub clear_timers : Hub → Hub
clear_timers h = record h { armed = [] }
