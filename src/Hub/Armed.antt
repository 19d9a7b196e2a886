-- ===== src/Hub/Armed.antt =====
-- idle-stop.ts with hub.ts: which threads have an armed window.
pub mod Reports
pub mod Commands
pub mod History
use saku.Base.{
  ℕ, String, Bool, true, false, Option, none, some, List, [], ◌∷◌, ◌≡◌, refl, sym, ap, ◌∙◌, subst,
  ◌⊎◌, inl, inr, Option-cases, Bool-cases, arith, if◌then◌else◌, ◌&&◌, str_eq, eq_iff,
}
use saku.Base.Map.{
  Map, get, put, remove, has, get-put, get-remove, get-put_cases, get-remove-some, get-put_self,
}
use saku.Base.Text.{trim, is_empty_text}
use saku.Hub.Types.{
  HubRecord, ThreadInfo, ThreadState, ThreadEnvState, WorkerReport, SessionCommand, SeamCall,
  Answer, HubErrorKind, HubEvent,
}
use saku.Hub.Registry.{
  Registry, NewThread, patch, new_record, create, delete, set_env, set_env_handle,
  set_remote_machine_id, set_state, set_tail_seq, to_info, state_of,
}
use saku.Hub.IdleStop.{
  Hub, call, notify, emit_info, arm, disarm, suspend, fire, clear_timers, is_idle, can_suspend,
}
use saku.Hub.Core.{
  on_registry, report_name, report_registry, report_session, report_state, report_tail,
  report_window, emit_change, apply_report, session_event,
}
use saku.Hub.Calls.{registry-arm, registry-emit_info, renamed}

-- A window is armed only for a thread that is there, in a sandbox whose env is ready.
abbrev pub Suspendable : Registry → Map (Unit {0}) → Type 0
Suspendable reg armed =
    (id : String)
    → get id armed ≡ some tt
    → (r : HubRecord) × (get id reg.records ≡ some r) × (can_suspend r ≡ true)

pub patch-Suspendable :
    (reg : Registry) (armed : Map (Unit {0})) (j : String) (fn : HubRecord → HubRecord)
    → ((r : HubRecord) → can_suspend (fn r) ≡ can_suspend r)
    → Suspendable reg armed
    → Suspendable (patch reg j fn) armed
unfolding patch
patch-Suspendable reg armed j fn keeps w = at (get j reg.records) refl
  where
    at :
        (found : Option HubRecord)
        → get j reg.records ≡ found
        → Suspendable
            (elim found as (λ _. Registry) [
              | none ↦ reg
              | some r ↦ record reg {
                records = put j (fn r) reg.records;
                stored = put (fn r).id (fn r) reg.stored;
              }
            ])
            armed
    at none _ = w
    at (some r) found = λ id on. elim (Bool-cases (str_eq j id)) [
      | inl same ↦ (
        fn r,
        rw (get-put j id (fn r) reg.records, same) refl,
        keeps r
            ∙ suspendable id (w id on)
                (sym (ap (λ x. get x reg.records) ((eq_iff j id).0 same)) ∙ found),
      )
      | inr other ↦
          let (q, there, can) = w id on in
          (q, rw (get-put j id (fn r) reg.records, other) there, can)
    ]
      where
        here_is :
            (id : String) (q : HubRecord)
            → get id reg.records ≡ some q
            → get id reg.records ≡ some r
            → q ≡ r
        here_is id q there here = cc (sym there ∙ here)

        suspendable :
            (id : String)
            → ((q : HubRecord) × (get id reg.records ≡ some q) × (can_suspend q ≡ true))
            → get id reg.records ≡ some r
            → can_suspend r ≡ true
        suspendable id (q, there, can) here =
            subst (λ x. can_suspend x ≡ true) (here_is id q there here) can

-- Without the window of a thread, any change of that thread's record is allowed.
pub disarmed-Suspendable :
    (reg : Registry) (armed : Map (Unit {0})) (j : String) (fn : HubRecord → HubRecord)
    → get j armed ≡ none
    → Suspendable reg armed
    → Suspendable (patch reg j fn) armed
unfolding patch
disarmed-Suspendable reg armed j fn off w = at (get j reg.records)
  where
    at :
        (found : Option HubRecord)
        → Suspendable
            (elim found as (λ _. Registry) [
              | none ↦ reg
              | some r ↦ record reg {
                records = put j (fn r) reg.records;
                stored = put (fn r).id (fn r) reg.stored;
              }
            ])
            armed
    at none = w
    at (some r) = λ id on. elim (Bool-cases (str_eq j id)) [
      | inl same ↦ cc (sym off ∙ ap (λ x. get x armed) ((eq_iff j id).0 same) ∙ on)
      | inr other ↦
          let (q, there, can) = w id on in
          (q, rw (get-put j id (fn r) reg.records, other) there, can)
    ]

pub arm-Suspendable :
    (h : Hub) (id : String)
    → Suspendable h.registry h.armed
    → Suspendable (arm h id).registry (arm h id).armed
unfolding arm
arm-Suspendable h id w = at (get id h.registry.records) refl
  where
    put_on :
        (r : HubRecord)
        → get id h.registry.records ≡ some r
        → (b : Bool) → (can_suspend r && is_idle (state_of h.registry id)) ≡ b
        → Suspendable
            (if b then record h { armed = put id tt h.armed } else h).registry
            (if b then record h { armed = put id tt h.armed } else h).armed
    put_on r found false _ = w
    put_on r found true can = λ j on. elim (get-put_cases id j tt h.armed on) [
      | inl (same, _) ↦
          (r, sym (ap (λ x. get x h.registry.records) same) ∙ found, ground (arith, can))
      | inr old ↦ w j old
    ]

    at :
        (found : Option HubRecord)
        → get id h.registry.records ≡ found
        → Suspendable
            (elim found as (λ _. Hub) [
              | none ↦ h
              | some r ↦
                  if can_suspend r && is_idle (state_of h.registry id)
                  then record h { armed = put id tt h.armed }
                  else h
            ]).registry
            (elim found as (λ _. Hub) [
              | none ↦ h
              | some r ↦
                  if can_suspend r && is_idle (state_of h.registry id)
                  then record h { armed = put id tt h.armed }
                  else h
            ]).armed
    at none _ = w
    at (some r) found = put_on r found (can_suspend r && is_idle (state_of h.registry id)) refl
