-- ===== src/Host/Lifecycle.antt =====
-- session-machine.ts: what every event keeps of the lifecycle.
use saku.Base.{
  String, Bool, true, false, Option, none, some, List, [], ◌≡◌, refl, sym, ◌∙◌, subst, arith,
}
use saku.Hub.Types.{ThreadState}
use saku.Host.Types.{Host, HostState, HostReply, Model, Outcome, Preparation, push_state, become}
use saku.Host.Config.{apply_thinking_level, apply_model, answer_model}
use saku.Host.Machine.{
  HostEvent, transition, request_run, start_run, busy_reply, request_abort, request_compaction,
  start_compaction, set_session_name, finish_run, finish_compaction, reply_level, reply_model,
}

-- The machine and the state that the registry holds.
abbrev pub Seen : Type 0
Seen = HostState × ThreadState

abbrev pub seen : Host → Seen
seen h = (h.machine, h.pushed)

-- A state in which nothing is in flight and nothing crashed.
abbrev pub IsFree : HostState → Type 0
IsFree HostState.idle = Unit
IsFree HostState.interrupted = Unit
IsFree _ = ⊥

-- A step of the lifecycle. Only a run that starts, a run or compaction that ends and a compaction that
-- starts move the machine.
pub data Step : Seen → Seen → Type 0 where
  stays : {s : Seen} → Step s s
  starts :
      {m : HostState} {p : ThreadState} {text : String} {images : List String}
      → IsFree m
      → Step (m, p) (HostState.working text images, ThreadState.working)
  compacts :
      {m : HostState} {p : ThreadState} {custom : Option String}
      → IsFree m
      → Step (m, p) (HostState.compacting custom, p)
  finishes :
      {text : String} {images : List String} {p : ThreadState}
      → Step (HostState.working text images, p) (HostState.idle, ThreadState.idle)
  crashes :
      {text : String} {images : List String} {p : ThreadState} {message : String}
      → Step (HostState.working text images, p) (HostState.crashed message, ThreadState.idle)
  compacted :
      {custom : Option String} {p : ThreadState}
      → Step (HostState.compacting custom, p) (HostState.idle, ThreadState.idle)

busy_reply-IsFree : (m : HostState) → busy_reply m ≡ none → IsFree m
unfolding busy_reply
busy_reply-IsFree HostState.idle _ = tt
busy_reply-IsFree HostState.interrupted _ = tt
busy_reply-IsFree (HostState.working _ _) e = cc e
busy_reply-IsFree (HostState.compacting _) e = cc e
busy_reply-IsFree (HostState.crashed _) e = cc e

request_run-Step :
    (h : Host) (text : String) (images : List String)
    → Step (seen h) (seen (request_run h (HostState.working text images)).0)
unfolding request_run start_run
request_run-Step h text images = at (busy_reply h.machine) refl h.model
  where
    at :
        (b : Option HostReply)
        → busy_reply h.machine ≡ b
        → (m : Option Model)
        → Step (seen h) (
            seen
              (elim b as (λ _. Host × HostReply) [
                | some refusal ↦ (h, refusal)
                | none ↦ elim m as (λ _. Host × HostReply) [
                  | none ↦ (
                    h,
                    HostReply.reply_failed "no model selected for this thread; use set_model first",
                  )
                  | some _ ↦ (
                    become (push_state h ThreadState.working) (HostState.working text images),
                    HostReply.reply_ok none none,
                  )
                ]
              ]).0)
    at (some refusal) _ _ = Step.stays
    at none _ none = Step.stays
    at none free (some _) = Step.starts (busy_reply-IsFree h.machine free)

request_compaction-Step :
    (h : Host) (custom : Option String) (answer : Outcome Preparation)
    → Step (seen h) (seen (request_compaction h h.machine custom answer).0)
unfolding request_compaction start_compaction
request_compaction-Step h custom answer = at h.machine refl answer
  where
    at :
        (m : HostState)
        → h.machine ≡ m
        → (answer : Outcome Preparation)
        → Step (seen h) (seen (request_compaction h m custom answer).0)
    at (HostState.working _ _) _ _ = Step.stays
    at (HostState.compacting _) _ _ = Step.stays
    at (HostState.crashed _) _ _ = Step.stays
    at HostState.idle _ (Outcome.failed _) = Step.stays
    at HostState.idle _ (Outcome.done (Preparation.unprepared _)) = Step.stays
    at HostState.idle _ (Outcome.done Preparation.nothing_to_compact) = Step.stays
    at HostState.idle e (Outcome.done Preparation.prepared) =
        Step.compacts (subst (λ x. IsFree x) (sym e) tt)
    at HostState.interrupted _ (Outcome.failed _) = Step.stays
    at HostState.interrupted _ (Outcome.done (Preparation.unprepared _)) = Step.stays
    at HostState.interrupted _ (Outcome.done Preparation.nothing_to_compact) = Step.stays
    at HostState.interrupted e (Outcome.done Preparation.prepared) =
        Step.compacts (subst (λ x. IsFree x) (sym e) tt)

same-Step : {s s' : Seen} → s' ≡ s → Step s s'
same-Step {s = s} e = subst (λ x. Step s x) (sym e) Step.stays

finish_run-Step :
    (h : Host) (next : HostState)
    → ((text : String) (images : List String) (p : ThreadState)
        → Step (HostState.working text images, p) (next, ThreadState.idle))
    → Step (seen h) (seen (finish_run h h.machine next))
unfolding finish_run
finish_run-Step h next ends = at h.machine refl
  where
    at : (m : HostState) → m ≡ h.machine → Step (seen h) (seen (finish_run h m next))
    at (HostState.working text images) e =
        subst (λ m. Step (m, h.pushed) (next, ThreadState.idle)) e (ends text images h.pushed)
    at (HostState.compacting _) _ = Step.stays
    at (HostState.crashed _) _ = Step.stays
    at HostState.idle _ = Step.stays
    at HostState.interrupted _ = Step.stays

finish_compaction-Step : (h : Host) → Step (seen h) (seen (finish_compaction h h.machine))
unfolding finish_compaction
finish_compaction-Step h = at h.machine refl
  where
    at : (m : HostState) → m ≡ h.machine → Step (seen h) (seen (finish_compaction h m))
    at (HostState.compacting custom) e =
        subst (λ m. Step (m, h.pushed) (HostState.idle, ThreadState.idle)) e Step.compacted
    at (HostState.working _ _) _ = Step.stays
    at (HostState.crashed _) _ = Step.stays
    at HostState.idle _ = Step.stays
    at HostState.interrupted _ = Step.stays

module _ (supported : Model → List String) (clamp : Model → String → String) where
  seen-apply_thinking_level :
      (h : Host) (level : String) (outcome : Outcome (Unit {0}))
      → seen (apply_thinking_level supported clamp h level outcome).0 ≡ seen h
  unfolding apply_thinking_level
  seen-apply_thinking_level h level outcome = ground arith

  seen-reply_level : (x : Host × Outcome String) → seen (reply_level x).0 ≡ seen x.0
  seen-reply_level (h, Outcome.done _) = refl
  seen-reply_level (h, Outcome.failed _) = refl

  seen-reply_model : (x : Host × Outcome Model) → seen (reply_model x).0 ≡ seen x.0
  seen-reply_model (h, Outcome.done _) = refl
  seen-reply_model (h, Outcome.failed _) = refl

  seen-answer_model :
      (m : Model) (x : Host × Outcome String) → seen (answer_model supported clamp m x).0 ≡ seen x.0
  seen-answer_model m (h, Outcome.done _) = refl
  seen-answer_model m (h, Outcome.failed _) = refl

  seen-apply_model :
      (h : Host) (found : Option Model) (a : Bool) (p i : String) (o c : Outcome (Unit {0}))
      → seen (apply_model supported clamp h found a p i o c).0 ≡ seen h
  unfolding apply_model
  seen-apply_model h none a p i o c = refl
  seen-apply_model h (some m) false p i o c = refl
  seen-apply_model h (some m) true p i (Outcome.failed _) c = refl
  seen-apply_model h (some m) true p i (Outcome.done _) c =
      seen-answer_model m (apply_thinking_level supported clamp _ h.thinking_level c)
      ∙ seen-apply_thinking_level _ h.thinking_level c

  seen-request_abort : (h : Host) (m : HostState) → seen (request_abort h m).0 ≡ seen h
  unfolding request_abort
  seen-request_abort h (HostState.working _ _) = refl
  seen-request_abort h (HostState.compacting _) = refl
  seen-request_abort h (HostState.crashed _) = refl
  seen-request_abort h HostState.idle = refl
  seen-request_abort h HostState.interrupted = refl

  seen-set_session_name :
      (h : Host) (n : String) (o : Outcome (Unit {0})) → seen (set_session_name h n o).0 ≡ seen h
  unfolding set_session_name
  seen-set_session_name h n (Outcome.done _) = refl
  seen-set_session_name h n (Outcome.failed _) = refl

  -- Whatever event comes in whatever state, the machine and the registry's state move by a step of the
  -- lifecycle: only idle and interrupted start a run or a compaction, only a run in flight ends in idle
  -- or crashes, only a compaction in flight ends in idle otherwise.
  pub transition-Step :
      (h : Host) (event : HostEvent) → Step (seen h) (seen (transition supported clamp h event).0)
  unfolding transition
  transition-Step h (HostEvent.prompt_requested text images) = request_run-Step h text images
  transition-Step h (HostEvent.steer_requested text) = request_run-Step h text []
  transition-Step h (HostEvent.follow_up_requested text) = request_run-Step h text []
  transition-Step h HostEvent.abort_requested = same-Step (seen-request_abort h h.machine)
  transition-Step h (HostEvent.compact_requested custom answer) =
      request_compaction-Step h custom answer
  transition-Step h (HostEvent.set_auto_compaction_requested _) = Step.stays
  transition-Step h (HostEvent.set_session_name_requested n o) =
      same-Step (seen-set_session_name h n o)
  transition-Step h (HostEvent.set_model_requested p i found a o c) =
      same-Step (seen-reply_model _ ∙ seen-apply_model h found a p i o c)
  transition-Step h (HostEvent.set_thinking_level_requested level o) =
      same-Step (seen-reply_level _ ∙ seen-apply_thinking_level h level o)
  transition-Step h HostEvent.run_finished =
      finish_run-Step h HostState.idle (λ _ _ _. Step.finishes)
  transition-Step h (HostEvent.run_failed message) =
      finish_run-Step h (HostState.crashed message) (λ _ _ _. Step.crashes)
  transition-Step h HostEvent.compact_finished = finish_compaction-Step h
  transition-Step h (HostEvent.compact_failed _) = finish_compaction-Step h
