-- ===== src/Hub/Core.antt =====
-- hub.ts: the domain calls. What a seam answers is an argument of the call that asks it; an answer
-- that the code ignores is none.
use saku.Base.{
  ℕ, String, Bool, true, false, ◌&&◌, Option, none, some, List, [], ◌∷◌, if◌then◌else◌, str_eq,
  filter, ◌==◌, opt_eq,
}
use saku.Base.Map.{get}
use saku.Base.Text.{trim, is_empty_text}
use saku.Hub.Types.{
  ThreadMode, ThreadState, ThreadEnvState, EnvHandle, HubRecord, ThreadInfo, WorkerReport, HubEvent,
  SeamCall, SessionCommand, HubErrorKind, Answer,
}
use saku.Hub.Registry.{
  Registry, NewThread, patch, new_record, create, delete, list, set_env, set_env_handle,
  set_remote_machine_id, set_state, set_tail_seq, to_info,
}
use saku.Hub.IdleStop.{Hub, call, notify, emit_info, arm, disarm, is_ready}
use text.Mathlib.Text.{starts_with}

-- wire/src/thread.ts, `resolveThread`: an exact name first, then a prefix that fits one thread.
unfoldable pub find_name : String → List HubRecord → Option HubRecord
find_name input [] = none
find_name input (r ∷ rs) = if str_eq r.name input then some r else find_name input rs

abbrev pub only : List HubRecord → Answer HubRecord
only (r ∷ []) = Answer.ok r
only _ = Answer.fail HubErrorKind.resolution

unfoldable pub resolve_thread : List HubRecord → String → Answer HubRecord
unfolding find_name
resolve_thread threads input = elim (find_name input threads) [
  | some r ↦ Answer.ok r
  | none ↦ only (filter (λ (r : HubRecord). starts_with r.id input) threads)
]

-- `resolveThreadId`, then the rest of the call.
abbrev pub with_thread {ℓ} :
    {A : Type ℓ} → Hub → String → (String → Hub × Answer A) → Hub × Answer A
with_thread h input k = elim (resolve_thread (list h.registry) input) [
  | Answer.fail kind ↦ (h, Answer.fail kind)
  | Answer.ok r ↦ k r.id
]

abbrev pub on_registry : Hub → Registry → Hub
on_registry h reg = record h { registry = reg }

unfoldable pub is_read_only : SessionCommand → Bool
is_read_only SessionCommand.get_entries = true
is_read_only SessionCommand.get_state = true
is_read_only SessionCommand.get_available_models = true
is_read_only SessionCommand.get_available_thinking_levels = true
is_read_only _ = false

-- The parts of `applyReport`, each on a field that the report may leave out.
unfoldable pub report_name : Registry → String → Option String → Registry
report_name reg id none = reg
report_name reg id (some name) = elim (get id reg.records) [
  | none ↦ reg
  | some r ↦
      if r.auto_name then patch reg id (λ r. record r { auto_name = false; name = name }) else reg
]

unfoldable pub report_session : Registry → String → Option (Option String) → Registry
report_session reg id none = reg
report_session reg id (some session_id) = patch reg id (λ r. record r { session_id = session_id })

unfoldable pub report_state : Registry → String → Option ThreadState → Registry
report_state reg id none = reg
report_state reg id (some state) = set_state reg id state

unfoldable pub report_tail : Registry → String → Option ℕ → Registry
report_tail reg id none = reg
report_tail reg id (some tail_seq) = set_tail_seq reg id tail_seq

unfoldable pub report_window : Hub → String → Option ThreadState → Hub
report_window h id (some ThreadState.working) = disarm h id
report_window h id (some ThreadState.idle) = arm h id
report_window h id _ = h

abbrev pub same_mode : ThreadMode → ThreadMode → Bool
same_mode ThreadMode.local ThreadMode.local = true
same_mode ThreadMode.sandbox ThreadMode.sandbox = true
same_mode ThreadMode.any ThreadMode.any = true
same_mode _ _ = false

abbrev pub same_state : ThreadState → ThreadState → Bool
same_state ThreadState.idle ThreadState.idle = true
same_state ThreadState.working ThreadState.working = true
same_state ThreadState.interrupted ThreadState.interrupted = true
same_state _ _ = false

abbrev pub same_env : ThreadEnvState → ThreadEnvState → Bool
same_env ThreadEnvState.stopped ThreadEnvState.stopped = true
same_env ThreadEnvState.provisioning ThreadEnvState.provisioning = true
same_env ThreadEnvState.ready ThreadEnvState.ready = true
same_env ThreadEnvState.error ThreadEnvState.error = true
same_env _ _ = false

abbrev pub same_number : Option ℕ → Option ℕ → Bool
same_number none none = true
same_number (some a) (some b) = a == b
same_number _ _ = false

-- `threadInfoEq`, field by field.
unfoldable pub thread_info_eq : ThreadInfo → ThreadInfo → Bool
thread_info_eq a b =
    same_number a.archived_at b.archived_at
    && opt_eq a.cwd b.cwd
    && same_env a.env b.env
    && str_eq a.id b.id
    && same_mode a.mode b.mode
    && str_eq a.name b.name
    && opt_eq a.session_id b.session_id
    && same_state a.state b.state
    && a.tail_seq == b.tail_seq

abbrev pub emit_change : Hub → Option ThreadInfo → Option ThreadInfo → Hub
emit_change h (some before) (some after) =
    if thread_info_eq before after then h else notify h (HubEvent.thread_changed after)
emit_change h _ _ = h

unfoldable pub report_registry : Registry → String → WorkerReport → Registry
report_registry reg id report =
    let named = report_name reg id report.name in
    let with_session = report_session named id report.session_id in
    report_tail (report_state with_session id report.state) id report.tail_seq

-- A worker's report.
unfoldable pub apply_report : Hub → String → WorkerReport → Hub
apply_report h id report =
    let before = to_info h.registry id in
    let updated = on_registry h (report_registry h.registry id report) in
    let windowed = report_window updated id report.state in
    emit_change windowed before (to_info windowed.registry id)

-- A worker's session event: any event is activity.
unfoldable pub session_event : Hub → String → String → ℕ → Hub
session_event h id event tail_seq =
    let counted = on_registry h (set_tail_seq h.registry id tail_seq) in
    notify (arm counted id) (HubEvent.session_event id event)

pub record EnvProvisioning : Type 0 where
  pub remote_machine_id : Option String
  pub handle : Option EnvHandle

unfoldable pub provisioned_registry : Registry → String → EnvProvisioning → Registry
provisioned_registry reg id p =
    set_env (set_env_handle (set_remote_machine_id reg id p.remote_machine_id) id p.handle) id
      ThreadEnvState.ready

abbrev pub and_then {ℓ} :
    {A B : Type ℓ} → Hub × Answer A → (Hub → A → Hub × Answer B) → Hub × Answer B
and_then (h, Answer.ok a) k = k h a
and_then (h, Answer.fail kind) k = (h, Answer.fail kind)

-- The arm of the env gate for an env that is not ready; `none` if the provisioner failed.
unfoldable pub provision : Hub → HubRecord → Option EnvProvisioning → Hub × Answer (Unit {0})
provision h r none =
    let h' =
      call (disarm h r.id) (SeamCall.provisioner_ensure r.id r.remote_machine_id r.env_handle) in
    and_then (emit_info (on_registry h' (set_env h'.registry r.id ThreadEnvState.error)) r.id)
      (λ h'' _. (h'', Answer.fail HubErrorKind.provisioner))
provision h r (some p) =
    let h' =
      call (disarm h r.id) (SeamCall.provisioner_ensure r.id r.remote_machine_id r.env_handle) in
    let h'' = on_registry h' (provisioned_registry h'.registry r.id p) in
    and_then (emit_info (call h'' (SeamCall.worker_set_env_handle r.id p.handle)) r.id)
      (λ g _. (arm g r.id, Answer.ok tt))

unfoldable pub ensure_env : Hub → HubRecord → Option EnvProvisioning → Hub × Answer (Unit {0})
ensure_env h r outcome =
    if is_ready r.env
    then (arm (call h (SeamCall.worker_set_env_handle r.id r.env_handle)) r.id, Answer.ok tt)
    else provision h r outcome

-- `workerRef.command` and what follows it.
unfoldable pub forward : Hub → String → SessionCommand → Answer (String × ℕ) → Hub × Answer String
forward h id command (Answer.fail kind) =
    (call h (SeamCall.worker_command id command), Answer.fail kind)
forward h id command (Answer.ok (payload, tail_seq)) =
    let h' = call h (SeamCall.worker_command id command) in
    (on_registry h' (set_tail_seq h'.registry id tail_seq), Answer.ok payload)

unfoldable pub run_session_command :
    Hub
    → String
    → SessionCommand
    → Option EnvProvisioning
    → Answer (String × ℕ)
    → Hub × Answer String
run_session_command h input command outcome reply = with_thread h input λ id.
    elim (get id h.registry.records) [
      | none ↦ (h, Answer.fail HubErrorKind.registry)
      | some r ↦
          if is_read_only command
          then forward h id command reply
          else and_then (ensure_env h r outcome) (λ h' _. forward h' id command reply)
    ]

-- `registry.update` and the broadcast: the tail of `archiveThread` and `unarchiveThread`.
unfoldable pub set_archived : Hub → String → Option ℕ → Hub × Answer ThreadInfo
set_archived h input archived_at = with_thread h input λ id. elim (get id h.registry.records) [
  | none ↦ (h, Answer.fail HubErrorKind.registry)
  | some r ↦
      emit_info (on_registry h (patch h.registry id (λ r. record r { archived_at = archived_at })))
        id
]

unfoldable pub archive_thread : Hub → String → ℕ → Hub × Answer ThreadInfo
archive_thread h input now = set_archived h input (some now)

unfoldable pub unarchive_thread : Hub → String → Hub × Answer ThreadInfo
unarchive_thread h input = set_archived h input none

unfoldable pub create_thread : Hub → String → ℕ → NewThread → Bool → Hub × Answer ThreadInfo
create_thread h id now input worker_created =
    let r = new_record id now input in
    let h' = call (on_registry h (create h.registry r)) (SeamCall.worker_create r.id) in
    if worker_created
    then emit_info h' r.id
    else (on_registry h' (delete h'.registry r.id), Answer.fail HubErrorKind.worker)

unfoldable pub get_thread : Hub → String → Answer ThreadInfo
get_thread h input = elim (resolve_thread (list h.registry) input) [
  | Answer.fail kind ↦ Answer.fail kind
  | Answer.ok r ↦ elim (to_info h.registry r.id) [
    | none ↦ Answer.fail HubErrorKind.registry
    | some info ↦ Answer.ok info
  ]
]

-- Best-effort teardown: the record is gone either way.
unfoldable pub tear_down : Hub → String → Option HubRecord → Hub
tear_down h id none = call h (SeamCall.worker_delete id)
tear_down h id (some r) =
    call (disarm (call h (SeamCall.worker_delete id)) id)
      (SeamCall.provisioner_release id r.remote_machine_id r.env_handle)

unfoldable pub delete_thread : Hub → String → Hub × Answer ThreadInfo
delete_thread h input = with_thread h input λ id. elim (to_info h.registry id) [
  | none ↦ (h, Answer.fail HubErrorKind.registry)
  | some info ↦
      let h' = tear_down h id (get id h.registry.records) in
      (
        notify (on_registry h' (delete h'.registry id)) (HubEvent.thread_changed info),
        Answer.ok info,
      )
]

unfoldable pub rename_thread : Hub → String → String → Hub × Answer ThreadInfo
unfolding trim
rename_thread h input name = with_thread h input λ id.
    if is_empty_text (trim name)
    then (h, Answer.fail HubErrorKind.command)
    else emit_info
        (on_registry h
          (patch h.registry id (λ r. record r { auto_name = false; name = trim name })))
        id
