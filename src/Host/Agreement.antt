-- ===== src/Host/Agreement.antt =====
-- session-machine.ts: the state that the registry shows against the machine's, and what a crash means.
use saku.Base.{subst, String, List, [], ◌∷◌, ◌≡◌, refl, ◌⊎◌, inl, inr, Option}
use saku.Hub.Types.{ThreadState}
use saku.Host.Types.{Host, HostState, Model, wire_state_of}
use saku.Host.Machine.{HostEvent, transition, transitions}
use saku.Host.Lifecycle.{Step, Seen, IsFree, seen, transition-Step}

-- The registry shows the machine's wire state, but for a compaction that began in an interrupted thread,
-- which still shows as interrupted.
abbrev pub Agrees : Seen → Type 0
Agrees (m, p) =
    (p ≡ wire_state_of m)
    ⊎ ((custom : Option String) × (m ≡ HostState.compacting custom) × (p ≡ ThreadState.interrupted))

Step-Agrees : {s s' : Seen} → Step s s' → Agrees s → Agrees s'
unfolding wire_state_of
Step-Agrees Step.stays a = a
Step-Agrees (Step.starts _) a = inl refl
Step-Agrees (Step.compacts {m = m} {custom = custom} free) a = at m free a
  where
    at :
        {p : ThreadState} (m : HostState)
        → IsFree m
        → Agrees (m, p)
        → Agrees (HostState.compacting custom, p)
    at HostState.idle _ (inl e) = inl e
    at HostState.interrupted _ (inl e) = inr (custom, refl, e)
    at HostState.idle _ (inr (c, e, _)) = cc e
    at HostState.interrupted _ (inr (c, e, _)) = cc e
    at (HostState.working _ _) e _ = elim e [ ]
    at (HostState.compacting _) e _ = elim e [ ]
    at (HostState.crashed _) e _ = elim e [ ]
Step-Agrees Step.finishes a = inl refl
Step-Agrees Step.crashes a = inl refl
Step-Agrees Step.compacted a = inl refl

-- A crash is final for its machine.
Step-crashed :
    {s s' : Seen} (message : String)
    → Step s s'
    → s.0 ≡ HostState.crashed message
    → s'.0 ≡ HostState.crashed message
Step-crashed message Step.stays e = e
Step-crashed message (Step.starts free) e = elim (subst (λ m. IsFree m) e free) [ ]
Step-crashed message (Step.compacts free) e = elim (subst (λ m. IsFree m) e free) [ ]
Step-crashed message Step.finishes e = cc e
Step-crashed message Step.crashes e = cc e
Step-crashed message Step.compacted e = cc e

module _ (supported : Model → List String) (clamp : Model → String → String) where
  -- If at the start the registry shows the wire state of the machine, or interrupted while a compaction
  -- runs, then it does so after any events.
  pub transitions-Agrees :
      (h : Host) (events : List HostEvent)
      → Agrees (seen h)
      → Agrees (seen (transitions supported clamp h events))
  unfolding transitions
  transitions-Agrees h [] a = a
  transitions-Agrees h (event ∷ events) a =
      transitions-Agrees (transition supported clamp h event).0 events
        (Step-Agrees (transition-Step supported clamp h event) a)

  -- A machine that crashed stays crashed, with its message, whatever events come.
  pub transitions-crashed :
      (h : Host) (events : List HostEvent) (message : String)
      → h.machine ≡ HostState.crashed message
      → (transitions supported clamp h events).machine ≡ HostState.crashed message
  unfolding transitions
  transitions-crashed h [] message e = e
  transitions-crashed h (event ∷ events) message e =
      transitions-crashed (transition supported clamp h event).0 events message
        (Step-crashed message (transition-Step supported clamp h event) e)
