-- ===== src/Hub/Calls/Handled.antt =====
-- hub.ts: a property that the writes of the registry keep is kept by every call.
use saku.Base.{
  ℕ, String, Bool, true, false, Option, none, some, ◌≡◌, refl, sym, subst, if◌then◌else◌,
}
use saku.Base.Map.{get}
use saku.Base.Text.{trim, is_empty_text}
use saku.Hub.Types.{HubRecord, ThreadInfo, SessionCommand, Answer, HubErrorKind, HubEvent}
use saku.Hub.Registry.{Registry, NewThread, patch, new_record, create, delete, to_info}
use saku.Hub.IdleStop.{Hub, call, notify, emit_info, disarm, clear_timers}
use saku.Hub.Core.{
  on_registry, is_read_only, EnvProvisioning, and_then, ensure_env, forward, run_session_command,
  set_archived, archive_thread, unarchive_thread, create_thread, tear_down, delete_thread,
  rename_thread,
}
use saku.Hub.Awaits.{create_begins}
use saku.Hub.Calls.Awaited.{hub_step-closed}
use saku.Hub.Calls.{HubCall, handle, IsClosed, Allows, renamed}
use saku.Hub.Calls.Closed.{
  fire-closed, apply_report-closed, session_event-closed, and_then-closed, with_thread-closed,
  emit_info-closed, ensure_env-closed, forward-closed,
}

registry-tear_down :
    (h : Hub) (id : String) (r : Option HubRecord) → (tear_down h id r).registry ≡ h.registry
unfolding tear_down call disarm
registry-tear_down h id none = refl
registry-tear_down h id (some r) = refl

module _ {ℓ} (P : Registry → Type ℓ) (c : IsClosed P) where
  run_session_command-closed :
      (h : Hub) (input : String) (command : SessionCommand) (outcome : Option EnvProvisioning)
      (reply : Answer (String × ℕ))
      → P h.registry
      → P (run_session_command h input command outcome reply).0.registry
  unfolding run_session_command
  run_session_command-closed h input command outcome reply p =
      with_thread-closed P c h input _ p λ id. at_record id (get id h.registry.records)
    where
      gated :
          (id : String) (r : HubRecord) (b : Bool)
          → P
              (if b
                then forward h id command reply
                else and_then
                    (ensure_env h r outcome)
                    (λ h' _. forward h' id command reply)).0.registry
      gated id r true = forward-closed P c h id command reply p
      gated id r false =
          and_then-closed P c (ensure_env h r outcome) _ (ensure_env-closed P c h r outcome p)
            (λ g _ q. forward-closed P c g id command reply q)

      at_record :
          (id : String) (found : Option HubRecord)
          → P
              (elim found as (λ _. Hub × Answer String) [
                | none ↦ (h, Answer.fail HubErrorKind.registry)
                | some r ↦
                    if is_read_only command
                    then forward h id command reply
                    else and_then (ensure_env h r outcome) (λ h' _. forward h' id command reply)
              ]).0.registry
      at_record id none = p
      at_record id (some r) = gated id r (is_read_only command)

  set_archived-closed :
      (h : Hub) (input : String) (a : Option ℕ)
      → P h.registry
      → P (set_archived h input a).0.registry
  unfolding set_archived
  set_archived-closed h input a p =
      with_thread-closed P c h input _ p λ id. at_record id (get id h.registry.records)
    where
      at_record :
          (id : String) (found : Option HubRecord)
          → P
              (elim found as (λ _. Hub × Answer ThreadInfo) [
                | none ↦ (h, Answer.fail HubErrorKind.registry)
                | some r ↦
                    emit_info
                      (on_registry h (patch h.registry id (λ r. record r { archived_at = a })))
                      id
              ]).0.registry
      at_record id none = p
      at_record id (some r) = emit_info-closed P c _ id (c.archived h.registry id a p)

  delete_thread-closed :
      (h : Hub) (input : String) → P h.registry → P (delete_thread h input).0.registry
  unfolding delete_thread notify
  delete_thread-closed h input p =
      with_thread-closed P c h input _ p λ id. at_info id (to_info h.registry id)
    where
      at_info :
          (id : String) (found : Option ThreadInfo)
          → P
              (elim found as (λ _. Hub × Answer ThreadInfo) [
                | none ↦ (h, Answer.fail HubErrorKind.registry)
                | some info ↦
                    let h' = tear_down h id (get id h.registry.records) in
                    (
                      notify
                          (on_registry h' (delete h'.registry id))
                          (HubEvent.thread_changed info),
                      Answer.ok info,
                    )
              ]).0.registry
      at_info id none = p
      at_info id (some info) =
          c.gone _ id (subst P (sym (registry-tear_down h id (get id h.registry.records))) p)

  rename_thread-closed :
      (h : Hub) (input name : String)
      → P h.registry
      → ((id : String) → P (patch h.registry id (renamed (trim name))))
      → P (rename_thread h input name).0.registry
  unfolding rename_thread
  rename_thread-closed h input name p allowed =
      with_thread-closed P c h input _ p λ id. at_name id (is_empty_text (trim name))
    where
      at_name :
          (id : String) (b : Bool)
          → P
              (if b
                then (h, Answer.fail HubErrorKind.command)
                else emit_info
                    (on_registry h (patch h.registry id (renamed (trim name))))
                    id).0.registry
      at_name id true = p
      at_name id false = emit_info-closed P c _ id (allowed id)

  create_thread-closed :
      (h : Hub) (id : String) (now : ℕ) (input : NewThread) (worker_created : Bool)
      → P (create h.registry (new_record id now input))
      → P (create_thread h id now input worker_created).0.registry
  unfolding create_thread call
  create_thread-closed h id now input true made = emit_info-closed P c _ _ made
  create_thread-closed h id now input false made = c.gone _ _ made

  pub handle-closed :
      (h : Hub) (k : HubCall) → Allows P h k → P h.registry → P (handle h k).registry
  unfolding handle archive_thread unarchive_thread clear_timers create_begins call
  handle-closed h (HubCall.reports id report) _ p = apply_report-closed P c h id report p
  handle-closed h (HubCall.emits id event n) _ p = session_event-closed P c h id event n p
  handle-closed h (HubCall.fires id) _ p = fire-closed P c h id p
  handle-closed h (HubCall.runs input command outcome reply) _ p =
      run_session_command-closed h input command outcome reply p
  handle-closed h (HubCall.archives input now) _ p = set_archived-closed h input (some now) p
  handle-closed h (HubCall.unarchives input) _ p = set_archived-closed h input none p
  handle-closed h (HubCall.creates id now input b) allowed p =
      create_thread-closed h id now input b allowed
  handle-closed h (HubCall.deletes input) _ p = delete_thread-closed h input p
  handle-closed h (HubCall.renames input name) allowed p =
      rename_thread-closed h input name p allowed
  handle-closed h HubCall.closes _ p = p
  handle-closed h (HubCall.begins_create id now input) allowed p = allowed
  handle-closed h (HubCall.resumes s) _ p = hub_step-closed P c h s p
