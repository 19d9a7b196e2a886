-- ===== src/Hub/Windows.antt =====
-- hub.ts and idle-stop.ts: what the env gate, the idle-stop trigger and a report do to the seams and the
-- subscribers.
use saku.Base.{ℕ, String, false, none, some, [], ◌∷◌, ◌≡◌, refl, sym, ap, subst, arith, ◌++◌}
use saku.Base.Map.{get, get-put_self}
use saku.Hub.Types.{
  HubRecord, Answer, HubErrorKind, HubEvent, SeamCall, SessionCommand, ThreadEnvState,
}
use saku.Hub.Registry.{Registry, patch, list, to_info, info_from, set_env}
use saku.Hub.IdleStop.{Hub, emit_info, call, notify, arm, disarm, is_ready}
use saku.Hub.Core.{
  resolve_thread, on_registry, is_read_only, forward, run_session_command, provision, ensure_env,
  and_then,
}
use saku.Hub.Calls.{with_thread-ok}

pub calls-emit_info : (h : Hub) (id : String) → (emit_info h id).0.calls ≡ h.calls
unfolding emit_info notify
calls-emit_info h id = ground arith

pub calls-arm : (h : Hub) (id : String) → (arm h id).calls ≡ h.calls
unfolding arm
calls-arm h id = ground arith

emit_info-ok :
    (h : Hub) (id : String) (r : HubRecord)
    → get id h.registry.records ≡ some r
    → emit_info h id ≡ (
      notify h (HubEvent.thread_changed (info_from h.registry id r)),
      Answer.ok (info_from h.registry id r),
    )
unfolding emit_info to_info
emit_info-ok h id r found = rw (emit_info, to_info, found) refl

get-set_env :
    (reg : Registry) (id : String) (e : ThreadEnvState) (r : HubRecord)
    → get id reg.records ≡ some r
    → get id (set_env reg id e).records ≡ some (record r { env = e })
unfolding set_env patch
get-set_env reg id e r found =
    ground (arith, found, get-put_self id (record r { env = e }) reg.records)

-- The provisioner failed for a thread, and nothing else happened.
abbrev pub Failed : {A : Type 0} → Hub → HubRecord → Hub × Answer A → Type 0
Failed h w x =
    (x.1 ≡ Answer.fail HubErrorKind.provisioner)
    × (x.0.calls
        ≡ h.calls ++ SeamCall.provisioner_ensure w.id w.remote_machine_id w.env_handle ∷ [])
    × (x.0.registry ≡ set_env h.registry w.id ThreadEnvState.error)
    × (x.0.events
        ≡ h.events
          ++ HubEvent.thread_changed (
              info_from (set_env h.registry w.id ThreadEnvState.error) w.id
                (record w { env = ThreadEnvState.error }))
            ∷ [])

provision-Failed :
    (h : Hub) (w : HubRecord)
    → get w.id h.registry.records ≡ some w
    → Failed h w (provision h w none)
unfolding provision call disarm notify
provision-Failed h w found =
    rw
      (emit_info-ok (on_registry asked (set_env h.registry w.id ThreadEnvState.error)) w.id
        (record w { env = ThreadEnvState.error })
        (get-set_env h.registry w.id ThreadEnvState.error w found))
      (refl, refl, refl, refl)
  where
    asked : Hub
    asked = call (disarm h w.id) (SeamCall.provisioner_ensure w.id w.remote_machine_id w.env_handle)

-- For a command that does more than read, on a thread that stands under its own identifier and whose
-- env is not ready, the env gate holds back when the provisioner fails: the env is marked as failed,
-- the change is broadcast, the caller gets a provisioner error and the worker never sees the command.
pub run_session_command-gated :
    (h : Hub) (input : String) (command : SessionCommand) (reply : Answer (String × ℕ))
    (r w : HubRecord)
    → is_read_only command ≡ false
    → resolve_thread (list h.registry) input ≡ Answer.ok r
    → get r.id h.registry.records ≡ some w
    → w.id ≡ r.id
    → is_ready w.env ≡ false
    → Failed h w (run_session_command h input command none reply)
unfolding run_session_command ensure_env
run_session_command-gated h input command reply r w writes found at_r own down =
    rw (with_thread-ok h input _ r found, at_r, writes, down)
      (held _
        (provision-Failed h w (subst (λ x. get x h.registry.records ≡ some w) (sym own) at_r)))
  where
    held :
        (x : Hub × Answer (Unit {0}))
        → Failed h w x
        → Failed h w (and_then x (λ g _. forward g r.id command reply))
    held (g, Answer.ok _) (e, _, _, _) = cc e
    held (g, Answer.fail kind) (e, called, wrote, told) = (ap failing e, called, wrote, told)
      where
        failing : Answer (Unit {0}) → Answer String
        failing (Answer.ok _) = Answer.fail HubErrorKind.provisioner
        failing (Answer.fail e) = Answer.fail e
