-- ===== src/Hub/Calls/Closed.antt =====
-- hub.ts: a property that the writes of the registry keep is kept by every call.
use saku.Base.{
  ℕ, String, Bool, true, false, Option, none, some, ◌≡◌, sym, subst, ◌⊎◌, inl, inr, Option-cases,
  Bool-cases, arith, if◌then◌else◌,
}
use saku.Base.Map.{get}
use saku.Hub.Types.{ThreadEnvState, HubRecord, WorkerReport, SessionCommand, SeamCall, Answer}
use saku.Hub.Registry.{Registry, list, set_env, set_tail_seq, state_of}
use saku.Hub.IdleStop.{
  Hub, call, notify, emit_info, arm, disarm, suspend, fire, is_ready, can_suspend, is_idle,
}
use saku.Hub.Core.{
  resolve_thread, with_thread, on_registry, apply_report, session_event, EnvProvisioning,
  provisioned_registry, and_then, provision, ensure_env, forward,
}
use saku.Hub.Calls.{
  registry-emit_info, registry-arm, registry-apply_report, IsClosed, report_registry-closed,
}

registry-suspend :
    (h : Hub) (id : String) (r : HubRecord)
    → (suspend h id r).registry ≡ set_env h.registry id ThreadEnvState.stopped
unfolding suspend call
registry-suspend h id r = registry-emit_info _ id

pub registry-fire :
    (h : Hub) (id : String)
    → (fire h id).registry ≡ h.registry
      ⊎ (fire h id).registry ≡ set_env h.registry id ThreadEnvState.stopped
unfolding fire disarm
registry-fire h id = elim (Option-cases (get id h.registry.records)) [
  | inl missing ↦ inl (ground (arith, missing))
  | inr (r, found) ↦ elim (Bool-cases (is_idle (state_of h.registry id))) [
    | inr busy ↦ inl (ground (arith, found, busy, registry-arm (disarm h id) id))
    | inl idle ↦ elim (Bool-cases (can_suspend r)) [
      | inr stays ↦ inl (ground (arith, found, idle, stays))
      | inl suspends ↦
          inr (ground (arith, found, idle, suspends, registry-suspend (disarm h id) id r))
    ]
  ]
]

module _ {ℓ} (P : Registry → Type ℓ) (c : IsClosed P) where
  pub fire-closed : (h : Hub) (id : String) → P h.registry → P (fire h id).registry
  fire-closed h id p = elim (registry-fire h id) [
    | inl same ↦ subst P (sym same) p
    | inr stopped ↦ subst P (sym stopped) (c.env h.registry id ThreadEnvState.stopped p)
  ]

  pub apply_report-closed :
      (h : Hub) (id : String) (report : WorkerReport)
      → P h.registry
      → P (apply_report h id report).registry
  apply_report-closed h id report p =
      subst P (sym (registry-apply_report h id report))
        (report_registry-closed P c h.registry id report p)

  pub session_event-closed :
      (h : Hub) (id event : String) (n : ℕ) → P h.registry → P (session_event h id event n).registry
  unfolding session_event notify
  session_event-closed h id event n p =
      subst P (sym (registry-arm (on_registry h (set_tail_seq h.registry id n)) id))
        (c.tail h.registry id n p)

  -- A result of `and_then`, by the result before it.
  pub and_then-closed :
      {A B : Type 0} (x : Hub × Answer A) (k : Hub → A → Hub × Answer B)
      → P x.0.registry
      → ((h : Hub) (a : A) → P h.registry → P (k h a).0.registry)
      → P (and_then x k).0.registry
  and_then-closed (h, Answer.ok a) k p next = next h a p
  and_then-closed (h, Answer.fail e) k p next = p

  pub with_thread-closed :
      {A : Type 0} (h : Hub) (input : String) (k : String → Hub × Answer A)
      → P h.registry
      → ((id : String) → P (k id).0.registry)
      → P (with_thread h input k).0.registry
  with_thread-closed {A = A} h input k p next =
      elim_resolved (resolve_thread (list h.registry) input)
    where
      elim_resolved :
          (x : Answer HubRecord)
          → P
              (elim x as (λ _. Hub × Answer A) [
                | Answer.fail e ↦ (h, Answer.fail e)
                | Answer.ok r ↦ k r.id
              ]).0.registry
      elim_resolved (Answer.fail e) = p
      elim_resolved (Answer.ok r) = next r.id

  pub emit_info-closed : (h : Hub) (id : String) → P h.registry → P (emit_info h id).0.registry
  emit_info-closed h id p = subst P (sym (registry-emit_info h id)) p

  arm-closed : (h : Hub) (id : String) → P h.registry → P (arm h id).registry
  arm-closed h id p = subst P (sym (registry-arm h id)) p

  provision-closed :
      (h : Hub) (r : HubRecord) (outcome : Option EnvProvisioning)
      → P h.registry
      → P (provision h r outcome).0.registry
  unfolding provision call disarm provisioned_registry
  provision-closed h r none p =
      and_then-closed _ _ (emit_info-closed _ r.id (c.env _ r.id ThreadEnvState.error p))
        (λ g _ q. q)
  provision-closed h r (some e) p =
      and_then-closed _ _
        (emit_info-closed _ r.id (
          c.env _ r.id ThreadEnvState.ready
            (c.handle _ r.id e.handle (c.machine _ r.id e.remote_machine_id p))))
        (λ g _ q. arm-closed g r.id q)

  pub ensure_env-closed :
      (h : Hub) (r : HubRecord) (outcome : Option EnvProvisioning)
      → P h.registry
      → P (ensure_env h r outcome).0.registry
  unfolding ensure_env call
  ensure_env-closed h r outcome p = by_env (is_ready r.env)
    where
      by_env :
          (b : Bool)
          → P
              (if b
                then (
                  arm (call h (SeamCall.worker_set_env_handle r.id r.env_handle)) r.id,
                  Answer.ok tt,
                )
                else provision h r outcome).0.registry
      by_env true = arm-closed (call h (SeamCall.worker_set_env_handle r.id r.env_handle)) r.id p
      by_env false = provision-closed h r outcome p

  pub forward-closed :
      (h : Hub) (id : String) (command : SessionCommand) (reply : Answer (String × ℕ))
      → P h.registry
      → P (forward h id command reply).0.registry
  unfolding forward call
  forward-closed h id command (Answer.fail e) p = p
  forward-closed h id command (Answer.ok (payload, n)) p = c.tail h.registry id n p
