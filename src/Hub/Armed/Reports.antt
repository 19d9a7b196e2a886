-- ===== src/Hub/Armed/Reports.antt =====
-- hub.ts: what a worker pushes, and the trigger, keep of the armed windows.
use saku.Base.{
  ℕ, String, Bool, true, false, Option, none, some, ◌≡◌, refl, sym, subst, if◌then◌else◌, arith,
}
use saku.Base.Map.{Map, get, remove, get-remove-some}
use saku.Base.Unique.{get-remove_self}
use saku.Hub.Types.{HubRecord, ThreadInfo, ThreadState, ThreadEnvState, WorkerReport, HubEvent}
use saku.Hub.Registry.{Registry, patch, set_env, set_state, set_tail_seq, state_of}
use saku.Hub.IdleStop.{
  Hub, call, notify, emit_info, arm, disarm, suspend, fire, is_idle, can_suspend,
}
use saku.Hub.Core.{
  on_registry, report_name, report_registry, report_session, report_state, report_tail,
  report_window, emit_change, apply_report, session_event, thread_info_eq,
}
use saku.Hub.Calls.{renamed, registry-emit_info}
use saku.Hub.Armed.{Suspendable, patch-Suspendable, disarmed-Suspendable, arm-Suspendable}

-- The windows of a hub.
abbrev pub Armed : Hub → Type 0
Armed h = Suspendable h.registry h.armed

armed-emit_info : (h : Hub) (id : String) → (emit_info h id).0.armed ≡ h.armed
unfolding emit_info notify
armed-emit_info h id = ground arith

pub emit_info-Armed : (h : Hub) (id : String) → Armed h → Armed (emit_info h id).0
emit_info-Armed h id w =
    subst (λ a. Suspendable (emit_info h id).0.registry a) (sym (armed-emit_info h id))
      (subst (λ r. Suspendable r h.armed) (sym (registry-emit_info h id)) w)

pub disarm-Armed : (h : Hub) (id : String) → Armed h → Armed (disarm h id)
unfolding disarm
disarm-Armed h id w = λ j on. w j (get-remove-some id j h.armed on)

report_name-Armed :
    (reg : Registry) (armed : Map (Unit {0})) (id : String) (n : Option String)
    → Suspendable reg armed
    → Suspendable (report_name reg id n) armed
unfolding report_name
report_name-Armed reg armed id none w = w
report_name-Armed reg armed id (some n) w = at (get id reg.records)
  where
    named : (b : Bool) → Suspendable (if b then patch reg id (renamed n) else reg) armed
    named true = patch-Suspendable reg armed id (renamed n) (λ _. refl) w
    named false = w

    at :
        (found : Option HubRecord)
        → Suspendable
            (elim found as (λ _. Registry) [
              | none ↦ reg
              | some r ↦ if r.auto_name then patch reg id (renamed n) else reg
            ])
            armed
    at none = w
    at (some r) = named r.auto_name

report_session-Armed :
    (reg : Registry) (armed : Map (Unit {0})) (id : String) (s : Option (Option String))
    → Suspendable reg armed
    → Suspendable (report_session reg id s) armed
unfolding report_session
report_session-Armed reg armed id none w = w
report_session-Armed reg armed id (some s) w = patch-Suspendable reg armed id _ (λ _. refl) w

report_state-Armed :
    (reg : Registry) (armed : Map (Unit {0})) (id : String) (s : Option ThreadState)
    → Suspendable reg armed
    → Suspendable (report_state reg id s) armed
unfolding report_state set_state
report_state-Armed reg armed id none w = w
report_state-Armed reg armed id (some s) w = w

report_tail-Armed :
    (reg : Registry) (armed : Map (Unit {0})) (id : String) (n : Option ℕ)
    → Suspendable reg armed
    → Suspendable (report_tail reg id n) armed
unfolding report_tail set_tail_seq
report_tail-Armed reg armed id none w = w
report_tail-Armed reg armed id (some n) w = w

report_window-Armed :
    (h : Hub) (id : String) (s : Option ThreadState) → Armed h → Armed (report_window h id s)
unfolding report_window
report_window-Armed h id none w = w
report_window-Armed h id (some ThreadState.idle) w = arm-Suspendable h id w
report_window-Armed h id (some ThreadState.working) w = disarm-Armed h id w
report_window-Armed h id (some ThreadState.interrupted) w = w

emit_change-Armed :
    (h : Hub) (before after : Option ThreadInfo) → Armed h → Armed (emit_change h before after)
unfolding notify
emit_change-Armed h none after w = w
emit_change-Armed h (some a) none w = w
emit_change-Armed h (some a) (some b) w = at (thread_info_eq a b)
  where
    at : (same : Bool) → Armed (if same then h else notify h (HubEvent.thread_changed b))
    at true = w
    at false = w

pub apply_report-Armed :
    (h : Hub) (id : String) (report : WorkerReport) → Armed h → Armed (apply_report h id report)
unfolding apply_report report_registry
apply_report-Armed h id report w = emit_change-Armed _ _ _ (
    report_window-Armed (on_registry h (report_registry h.registry id report)) id report.state (
      report_tail-Armed _ h.armed id report.tail_seq (
        report_state-Armed _ h.armed id report.state (
          report_session-Armed _ h.armed id report.session_id
            (report_name-Armed h.registry h.armed id report.name w)))))

pub session_event-Armed :
    (h : Hub) (id event : String) (n : ℕ) → Armed h → Armed (session_event h id event n)
unfolding session_event notify set_tail_seq
session_event-Armed h id event n w =
    arm-Suspendable (on_registry h (set_tail_seq h.registry id n)) id w

suspend-Armed :
    (h : Hub) (id : String) (r : HubRecord) → Armed h → Armed (suspend (disarm h id) id r)
unfolding suspend call disarm set_env
suspend-Armed h id r w = emit_info-Armed _ id (
    disarmed-Suspendable h.registry (remove id h.armed) id
      (λ r. record r { env = ThreadEnvState.stopped }) (get-remove_self id h.armed)
      (disarm-Armed h id w))

pub fire-Armed : (h : Hub) (id : String) → Armed h → Armed (fire h id)
unfolding fire
fire-Armed h id w = at (get id (disarm h id).registry.records)
  where
    suspended :
        (r : HubRecord) (b : Bool) → Armed (if b then suspend (disarm h id) id r else disarm h id)
    suspended r true = suspend-Armed h id r w
    suspended r false = disarm-Armed h id w

    quiet :
        (r : HubRecord) (b : Bool)
        → Armed (
            if b
            then if can_suspend r then suspend (disarm h id) id r else disarm h id
            else arm (disarm h id) id)
    quiet r true = suspended r (can_suspend r)
    quiet r false = arm-Suspendable (disarm h id) id (disarm-Armed h id w)

    at :
        (found : Option HubRecord)
        → Armed (elim found as (λ _. Hub) [
          | none ↦ disarm h id
          | some r ↦
              if is_idle (state_of (disarm h id).registry id)
              then if can_suspend r then suspend (disarm h id) id r else disarm h id
              else arm (disarm h id) id
        ])
    at none = disarm-Armed h id w
    at (some r) = quiet r (is_idle (state_of (disarm h id).registry id))
