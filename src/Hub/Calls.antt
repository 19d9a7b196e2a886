-- ===== src/Hub/Calls.antt =====
-- The hub's calls as data, and a rule for what all of them keep of the registry.
pub mod Closed
pub mod Handled
pub mod Awaited
use saku.Base.{
  ℕ, String, Bool, true, false, Option, none, some, List, [], ◌∷◌, ◌≡◌, refl, sym, ap, ◌∙◌, subst,
  ◌⊎◌, inl, inr, Option-cases, Bool-cases, arith, if◌then◌else◌, ◌&&◌,
}
use saku.Base.Map.{Map, get}
use saku.Base.Text.{trim, is_empty_text}
use saku.Hub.Types.{
  ThreadState, ThreadEnvState, HubRecord, ThreadInfo, WorkerReport, SessionCommand, SeamCall,
  Answer,
}
use saku.Hub.Registry.{
  Registry, NewThread, patch, new_record, create, delete, list, set_env, set_env_handle,
  set_remote_machine_id, set_state, set_tail_seq, to_info, state_of,
}
use saku.Hub.IdleStop.{
  Hub, call, notify, emit_info, arm, disarm, suspend, fire, clear_timers, is_ready, can_suspend,
  is_idle,
}
use saku.Hub.Core.{
  resolve_thread, with_thread, on_registry, is_read_only, report_name, report_session, report_state,
  report_tail, report_window, emit_change, report_registry, apply_report, session_event,
  EnvProvisioning, provisioned_registry, and_then, provision, ensure_env, forward,
  run_session_command, set_archived, archive_thread, unarchive_thread, create_thread, tear_down,
  delete_thread, rename_thread,
}
use saku.Hub.Awaits.{create_begins, HubStep, hub_step}

pub data HubCall : Type 0 where
  reports : String → WorkerReport → HubCall
  emits : String → (event : String) → (tail_seq : ℕ) → HubCall
  fires : String → HubCall
  runs : String → SessionCommand → Option EnvProvisioning → Answer (String × ℕ) → HubCall
  archives : String → ℕ → HubCall
  unarchives : String → HubCall
  creates : (id : String) → (now : ℕ) → NewThread → (worker_created : Bool) → HubCall
  deletes : String → HubCall
  renames : String → (name : String) → HubCall
  closes : HubCall
  begins_create : (id : String) → (now : ℕ) → NewThread → HubCall
  resumes : HubStep → HubCall

-- The calls that run to their end before anything else does, and the parts of those that do not.
unfoldable pub handle : Hub → HubCall → Hub
handle h (HubCall.reports id report) = apply_report h id report
handle h (HubCall.emits id event tail_seq) = session_event h id event tail_seq
handle h (HubCall.fires id) = fire h id
handle h (HubCall.runs input command outcome reply) =
    (run_session_command h input command outcome reply).0
handle h (HubCall.archives input now) = (archive_thread h input now).0
handle h (HubCall.unarchives input) = (unarchive_thread h input).0
handle h (HubCall.creates id now input worker_created) =
    (create_thread h id now input worker_created).0
handle h (HubCall.deletes input) = (delete_thread h input).0
handle h (HubCall.renames input name) = (rename_thread h input name).0
handle h HubCall.closes = clear_timers h
handle h (HubCall.begins_create id now input) = create_begins h id now input
handle h (HubCall.resumes s) = hub_step h s

unfoldable pub handle_all : Hub → List HubCall → Hub
handle_all h [] = h
handle_all h (c ∷ cs) = handle_all (handle h c) cs

pub with_thread-ok {ℓ} :
    {A : Type ℓ} (h : Hub) (input : String) (k : String → Hub × Answer A) (r : HubRecord)
    → resolve_thread (list h.registry) input ≡ Answer.ok r
    → with_thread h input k ≡ k r.id
with_thread-ok {A = A} h input k r found =
    ap
      (λ (x : Answer HubRecord). elim x as (λ _. Hub × Answer A) [
        | Answer.fail kind ↦ (h, Answer.fail kind)
        | Answer.ok w ↦ k w.id
      ])
      found

-- The broadcast, the windows and the seams leave the registry alone.
pub registry-emit_info : (h : Hub) (id : String) → (emit_info h id).0.registry ≡ h.registry
unfolding emit_info notify
registry-emit_info h id = ground arith

pub registry-arm : (h : Hub) (id : String) → (arm h id).registry ≡ h.registry
unfolding arm
registry-arm h id = ground arith

abbrev pub renamed : String → HubRecord → HubRecord
renamed name r = record r { auto_name = false; name = name }

-- A property that every write of the registry keeps, but for new threads and renames.
pub record IsClosed {ℓ} (P : Registry → Type ℓ) : Type ℓ where
  pub env : (reg : Registry) (id : String) (e : ThreadEnvState) → P reg → P (set_env reg id e)
  pub handle :
      (reg : Registry) (id : String) (e : Option String) → P reg → P (set_env_handle reg id e)
  pub machine :
      (reg : Registry) (id : String) (m : Option String)
      → P reg
      → P (set_remote_machine_id reg id m)
  pub name : (reg : Registry) (id : String) (n : Option String) → P reg → P (report_name reg id n)
  pub session :
      (reg : Registry) (id : String) (s : Option String)
      → P reg
      → P (patch reg id (λ r. record r { session_id = s }))
  pub archived :
      (reg : Registry) (id : String) (a : Option ℕ)
      → P reg
      → P (patch reg id (λ r. record r { archived_at = a }))
  pub state : (reg : Registry) (id : String) (s : ThreadState) → P reg → P (set_state reg id s)
  pub tail : (reg : Registry) (id : String) (n : ℕ) → P reg → P (set_tail_seq reg id n)
  pub gone : (reg : Registry) (id : String) → P reg → P (delete reg id)

-- What is left to show of a call: that a new thread, or a rename, keeps the property too.
abbrev pub Allows {ℓ} : (P : Registry → Type ℓ) → Hub → HubCall → Type ℓ
Allows P h (HubCall.creates id now input worker_created) =
    P (create h.registry (new_record id now input))
Allows P h (HubCall.begins_create id now input) = P (create h.registry (new_record id now input))
Allows P h (HubCall.renames input name) =
    (id : String) → P (patch h.registry id (renamed (trim name)))
Allows P h _ = Unit

module _ {ℓ} (P : Registry → Type ℓ) (c : IsClosed P) where
  report_session-closed :
      (reg : Registry) (id : String) (s : Option (Option String))
      → P reg
      → P (report_session reg id s)
  unfolding report_session
  report_session-closed reg id none p = p
  report_session-closed reg id (some s) p = c.session reg id s p

  report_state-closed :
      (reg : Registry) (id : String) (s : Option ThreadState) → P reg → P (report_state reg id s)
  unfolding report_state
  report_state-closed reg id none p = p
  report_state-closed reg id (some s) p = c.state reg id s p

  report_tail-closed :
      (reg : Registry) (id : String) (n : Option ℕ) → P reg → P (report_tail reg id n)
  unfolding report_tail
  report_tail-closed reg id none p = p
  report_tail-closed reg id (some n) p = c.tail reg id n p

  report_registry-closed :
      (reg : Registry) (id : String) (report : WorkerReport)
      → P reg
      → P (report_registry reg id report)
  unfolding report_registry
  report_registry-closed reg id report p = report_tail-closed _ id report.tail_seq (
      report_state-closed _ id report.state
        (report_session-closed _ id report.session_id (c.name reg id report.name p)))

registry-report_window :
    (h : Hub) (id : String) (s : Option ThreadState) → (report_window h id s).registry ≡ h.registry
unfolding report_window disarm
registry-report_window h id none = refl
registry-report_window h id (some ThreadState.idle) = registry-arm h id
registry-report_window h id (some ThreadState.working) = refl
registry-report_window h id (some ThreadState.interrupted) = refl

registry-emit_change :
    (h : Hub) (before after : Option ThreadInfo)
    → (emit_change h before after).registry ≡ h.registry
unfolding notify
registry-emit_change h before after = ground arith

pub registry-apply_report :
    (h : Hub) (id : String) (report : WorkerReport)
    → (apply_report h id report).registry ≡ report_registry h.registry id report
unfolding apply_report
registry-apply_report h id report =
    registry-emit_change _ _ _
    ∙ registry-report_window (on_registry h (report_registry h.registry id report)) id report.state
