-- ===== src/Hub/Calls/Awaited.antt =====
-- hub.ts: a property that the writes of the registry keep is kept by every part of a call.
use saku.Base.{
  String, Bool, true, false, Option, none, some, ◌≡◌, refl, sym, subst, inl, inr, Bool-cases,
}
use saku.Base.Map.{get}
use saku.Hub.Types.{ThreadEnvState, HubRecord, ThreadInfo, SessionCommand, Answer}
use saku.Hub.Registry.{Registry, list, to_info, state_of}
use saku.Hub.IdleStop.{Hub, call, notify, emit_info, disarm, is_ready, is_idle, can_suspend}
use saku.Hub.Core.{resolve_thread, is_read_only, provisioned_registry}
use saku.Hub.Awaits.{
  fire_checks, fire_begins, fire_stops, env_begins, command_begins, env_fails, env_comes, forwards,
  env_told, create_ends, delete_begins, delete_releases, delete_ends, at_thread, HubStep, hub_step,
}
use saku.Hub.Calls.{registry-arm, IsClosed}
use saku.Hub.Calls.Closed.{and_then-closed, emit_info-closed}

-- The parts that only ask leave the registry alone.
registry-fire_checks :
    (h : Hub) (id : String) (found : Option HubRecord)
    → (fire_checks h id found).registry ≡ h.registry
unfolding fire_checks call
registry-fire_checks h id none = refl
registry-fire_checks h id (some r) = elim (Bool-cases (is_idle (state_of h.registry id))) [
  | inr busy ↦ rw (busy) (registry-arm h id)
  | inl idle ↦ elim (Bool-cases (can_suspend r)) [
    | inr stays ↦ rw (idle, stays) refl
    | inl suspends ↦ rw (idle, suspends) refl
  ]
]

registry-fire_begins : (h : Hub) (id : String) → (fire_begins h id).registry ≡ h.registry
unfolding fire_begins disarm
registry-fire_begins h id = registry-fire_checks (disarm h id) id (get id h.registry.records)

registry-env_begins :
    (h : Hub) (r : HubRecord) (b : Bool) → (env_begins h r b).registry ≡ h.registry
unfolding env_begins disarm call
registry-env_begins h r true = refl
registry-env_begins h r false = refl

registry-command_begins :
    (h : Hub) (id : String) (command : SessionCommand) (found : Option HubRecord)
    → (command_begins h id command found).registry ≡ h.registry
unfolding command_begins call
registry-command_begins h id command none = refl
registry-command_begins h id command (some r) = elim (Bool-cases (is_read_only command)) [
  | inl reads ↦ rw (reads) refl
  | inr writes ↦ rw (writes) (registry-env_begins h r (is_ready r.env))
]

registry-delete_begins :
    (h : Hub) (id : String) (found : Option ThreadInfo)
    → (delete_begins h id found).registry ≡ h.registry
unfolding delete_begins call
registry-delete_begins h id none = refl
registry-delete_begins h id (some info) = refl

registry-at_thread :
    (h : Hub) (k : String → Hub) (found : Answer HubRecord)
    → ((id : String) → (k id).registry ≡ h.registry)
    → (at_thread h k found).registry ≡ h.registry
unfolding at_thread
registry-at_thread h k (Answer.fail kind) same = refl
registry-at_thread h k (Answer.ok r) same = same r.id

module _ {ℓ} (P : Registry → Type ℓ) (c : IsClosed P) where
  forwards-closed :
      (h : Hub) (own id : String) (command : SessionCommand)
      → P h.registry
      → P (forwards h own id command).registry
  unfolding forwards call
  forwards-closed h own id command p = subst P (sym (registry-arm h own)) p

  -- Every part keeps the property.
  pub hub_step-closed : (h : Hub) (s : HubStep) → P h.registry → P (hub_step h s).registry
  unfolding hub_step fire_stops env_fails env_comes env_told create_ends delete_releases delete_ends
      call notify disarm provisioned_registry
  hub_step-closed h (HubStep.begins_fire id) p = subst P (sym (registry-fire_begins h id)) p
  hub_step-closed h (HubStep.releases_fire id) p = p
  hub_step-closed h (HubStep.stops_fire id) p =
      emit_info-closed P c _ id (c.env _ id ThreadEnvState.stopped p)
  hub_step-closed h (HubStep.begins_command input command) p =
      subst P
        (sym (
          registry-at_thread h _ (resolve_thread (list h.registry) input)
            (λ id. registry-command_begins h id command (get id h.registry.records))))
        p
  hub_step-closed h (HubStep.fails_env id) p =
      emit_info-closed P c _ id (c.env _ id ThreadEnvState.error p)
  hub_step-closed h (HubStep.comes_env id e) p =
      c.env _ id ThreadEnvState.ready
        (c.handle _ id e.handle (c.machine _ id e.remote_machine_id p))
  hub_step-closed h (HubStep.forwards_command own id command) p = forwards-closed h own id command p
  hub_step-closed h (HubStep.tells_env own id command) p =
      and_then-closed P c (emit_info h own) _ (emit_info-closed P c h own p)
        (λ g _ q. forwards-closed g own id command q)
  hub_step-closed h (HubStep.replies_command id n) p = c.tail _ id n p
  hub_step-closed h (HubStep.ends_create id true) p = emit_info-closed P c h id p
  hub_step-closed h (HubStep.ends_create id false) p = c.gone _ id p
  hub_step-closed h (HubStep.begins_delete input) p =
      subst P
        (sym (
          registry-at_thread h _ (resolve_thread (list h.registry) input)
            (λ id. registry-delete_begins h id (to_info h.registry id))))
        p
  hub_step-closed h (HubStep.releases_delete id r) p = p
  hub_step-closed h (HubStep.ends_delete id info) p = c.gone _ id p
