-- ===== src/Host/Balance.antt =====
-- session-machine.ts: what a run tells its watchers, however the agent, the trail and the compaction
-- answer.
use saku.Base.{
  ℕ, ◌+◌, String, Bool, true, false, not, Option, none, some, List, [], ◌∷◌, ◌++◌, ◌≡◌, arith,
  if◌then◌else◌,
}
use saku.Host.Types.{Host, Model, Outcome, HostEntry, WireEvent, Reason, Preparation, append, emit}
use saku.Host.Run.{
  CompactionAnswers, compaction_failed, compact, run_compaction, AutoAnswers, is_cut_short, forget,
  compact_if_due, maybe_auto_compact, settle, run_command,
}

abbrev pub count : (WireEvent → Bool) → List WireEvent → ℕ
count p [] = 0
count p (e ∷ es) = (if p e then 1 else 0) + count p es

abbrev pub is_start : WireEvent → Bool
is_start (WireEvent.compaction_start _) = true
is_start _ = false

abbrev pub is_end : WireEvent → Bool
is_end (WireEvent.compaction_end _ _ _) = true
is_end _ = false

abbrev pub is_settled : WireEvent → Bool
is_settled WireEvent.settled = true
is_settled _ = false

count-emit :
    (p : WireEvent → Bool) (l : List WireEvent) (e : WireEvent)
    → count p (l ++ e ∷ []) ≡ count p l + (if p e then 1 else 0)
count-emit p [] e = omega arith
count-emit p (x ∷ l) e = omega (arith, count-emit p l e)

-- Between two hosts: some events of which as many end a compaction as start one, plus a number of
-- further ends, and that settle a number of runs.
abbrev pub Told : (ends settles : ℕ) → Host → Host → Type 0
Told ends settles h h' =
    (count is_end h'.emitted + count is_start h.emitted
      ≡ (ends + count is_end h.emitted) + count is_start h'.emitted)
    × (count is_settled h'.emitted ≡ settles + count is_settled h.emitted)

Told-append : (h g : Host) (e : HostEntry) → Told 0 0 h g → Told 0 0 h (append g e)
Told-append h g e (p, q) = (
  omega (
    arith,
    p,
    count-emit is_end g.emitted (WireEvent.entry_appended e),
    count-emit is_start g.emitted (WireEvent.entry_appended e),
  ),
  omega (arith, q, count-emit is_settled g.emitted (WireEvent.entry_appended e)),
)

Told-end :
    (h g : Host) (r : Reason) (a : Bool) (m : Option String)
    → Told 0 0 h g
    → Told 1 0 h (emit g (WireEvent.compaction_end r a m))
Told-end h g r a m (p, q) = (
  omega (
    arith,
    p,
    count-emit is_end g.emitted (WireEvent.compaction_end r a m),
    count-emit is_start g.emitted (WireEvent.compaction_end r a m),
  ),
  omega (arith, q, count-emit is_settled g.emitted (WireEvent.compaction_end r a m)),
)

Told-settled : (h g : Host) → Told 0 0 h g → Told 0 1 h (emit g WireEvent.settled)
Told-settled h g (p, q) = (
  omega (
    arith,
    p,
    count-emit is_end g.emitted WireEvent.settled,
    count-emit is_start g.emitted WireEvent.settled,
  ),
  omega (arith, q, count-emit is_settled g.emitted WireEvent.settled),
)

Told-start :
    (h : Host) (r : Reason) (h' : Host)
    → Told 1 0 (emit h (WireEvent.compaction_start r)) h'
    → Told 0 0 h h'
Told-start h r h' (p, q) = (
  omega (
    arith,
    p,
    count-emit is_end h.emitted (WireEvent.compaction_start r),
    count-emit is_start h.emitted (WireEvent.compaction_start r),
  ),
  omega (arith, q, count-emit is_settled h.emitted (WireEvent.compaction_start r)),
)

Told-nothing : (h : Host) → Told 0 0 h h
Told-nothing h = (omega arith, omega arith)

compaction_failed-Told :
    (h g : Host) (r : Reason) (a : Bool) (m : String)
    → Told 0 0 h g
    → Told 1 0 h (compaction_failed g r a m).0
compaction_failed-Told h g r true m t = Told-end h g r true none t
compaction_failed-Told h g r false m t = Told-end h g r false (some m) t

compact-Told :
    (h : Host) (r : Reason) (answers : CompactionAnswers) → Told 1 0 h (compact h r answers).0
unfolding compact
compact-Told h r answers = at answers.summary answers.appended answers.rebuilt
  where
    at :
        (s : Outcome String) (a b : Outcome (Unit {0}))
        → Told 1 0 h
            (elim s as (λ _. Host × Outcome (Option String)) [
              | Outcome.failed m ↦ compaction_failed h r answers.aborted m
              | Outcome.done summary ↦ elim a as (λ _. Host × Outcome (Option String)) [
                | Outcome.failed m ↦ compaction_failed h r answers.aborted m
                | Outcome.done _ ↦ elim b as (λ _. Host × Outcome (Option String)) [
                  | Outcome.failed m ↦
                      compaction_failed
                        (append h (HostEntry.compaction summary))
                        r
                        answers.aborted
                        m
                  | Outcome.done _ ↦ (
                    emit
                        (append h (HostEntry.compaction summary))
                        (WireEvent.compaction_end r false none),
                    Outcome.done (some summary),
                  )
                ]
              ]
            ]).0
    at (Outcome.failed m) _ _ = compaction_failed-Told h h r answers.aborted m (Told-nothing h)
    at (Outcome.done _) (Outcome.failed m) _ =
        compaction_failed-Told h h r answers.aborted m (Told-nothing h)
    at (Outcome.done s) (Outcome.done _) (Outcome.failed m) =
        compaction_failed-Told h (append h (HostEntry.compaction s)) r answers.aborted m
          (Told-append h h (HostEntry.compaction s) (Told-nothing h))
    at (Outcome.done s) (Outcome.done _) (Outcome.done _) =
        Told-end h (append h (HostEntry.compaction s)) r false none
          (Told-append h h (HostEntry.compaction s) (Told-nothing h))

run_compaction-Told :
    (h : Host) (r : Reason) (answers : CompactionAnswers)
    → Told 0 0 h (run_compaction h r answers).0
unfolding run_compaction
run_compaction-Told h r answers = at h.model answers.log answers.preparation
  where
    at :
        (m : Option Model) (l : Outcome (Unit {0})) (p : Preparation)
        → Told 0 0 h
            (elim m as (λ _. Host × Outcome (Option String)) [
              | none ↦ (h, Outcome.failed "no model selected for this thread")
              | some _ ↦ elim l as (λ _. Host × Outcome (Option String)) [
                | Outcome.failed message ↦ (h, Outcome.failed message)
                | Outcome.done _ ↦ elim p as (λ _. Host × Outcome (Option String)) [
                  | Preparation.unprepared message ↦ (h, Outcome.failed message)
                  | Preparation.nothing_to_compact ↦ (h, Outcome.done none)
                  | Preparation.prepared ↦ compact (emit h (WireEvent.compaction_start r)) r answers
                ]
              ]
            ]).0
    at none _ _ = Told-nothing h
    at (some _) (Outcome.failed _) _ = Told-nothing h
    at (some _) (Outcome.done _) (Preparation.unprepared _) = Told-nothing h
    at (some _) (Outcome.done _) Preparation.nothing_to_compact = Told-nothing h
    at (some _) (Outcome.done _) Preparation.prepared =
        Told-start h r (compact (emit h (WireEvent.compaction_start r)) r answers).0
          (compact-Told (emit h (WireEvent.compaction_start r)) r answers)

forget-Told :
    (h : Host) (x : Host × Outcome (Option String)) → Told 0 0 h x.0 → Told 0 0 h (forget x).0
forget-Told h (g, Outcome.done _) t = t
forget-Told h (g, Outcome.failed _) t = t

compact_if_due-Told : (h : Host) (answers : AutoAnswers) → Told 0 0 h (compact_if_due h answers).0
compact_if_due-Told h answers = at answers.log answers.due
  where
    at :
        (l : Outcome (Unit {0})) (due : Bool)
        → Told 0 0 h
            (elim l as (λ _. Host × Outcome (Unit {0})) [
              | Outcome.failed message ↦ (h, Outcome.failed message)
              | Outcome.done _ ↦
                  if due
                  then forget (run_compaction h Reason.threshold answers.compaction)
                  else (h, Outcome.done tt)
            ]).0
    at (Outcome.failed _) _ = Told-nothing h
    at (Outcome.done _) false = Told-nothing h
    at (Outcome.done _) true =
        forget-Told h (run_compaction h Reason.threshold answers.compaction)
          (run_compaction-Told h Reason.threshold answers.compaction)

maybe_auto_compact-Told :
    (h : Host) (answers : AutoAnswers) → Told 0 0 h (maybe_auto_compact h answers).0
unfolding maybe_auto_compact
maybe_auto_compact-Told h answers = at h.compaction_enabled answers.stop_reason h.model
  where
    cut : (b : Bool) → Told 0 0 h (if b then (h, Outcome.done tt) else compact_if_due h answers).0
    cut true = Told-nothing h
    cut false = compact_if_due-Told h answers

    at :
        (b : Bool) (s : Option String) (m : Option Model)
        → Told 0 0 h
            (if not b then (h, Outcome.done tt) else elim s as (λ _. Host × Outcome (Unit {0})) [
              | none ↦ (h, Outcome.done tt)
              | some reason ↦ elim m as (λ _. Host × Outcome (Unit {0})) [
                | none ↦ (h, Outcome.done tt)
                | some _ ↦
                    if is_cut_short reason then (h, Outcome.done tt) else compact_if_due h answers
              ]
            ]).0
    at false _ _ = Told-nothing h
    at true none _ = Told-nothing h
    at true (some _) none = Told-nothing h
    at true (some reason) (some _) = cut (is_cut_short reason)

settle-Told : (h : Host) (x : Host × Outcome (Unit {0})) → Told 0 0 h x.0 → Told 0 1 h (settle x).0
unfolding settle
settle-Told h (g, Outcome.done _) t = Told-settled h g t
settle-Told h (g, Outcome.failed _) t = Told-settled h g t

-- However the agent, the trail and the compaction answer, a run settles exactly once and ends as many
-- compactions as it starts.
pub run_command-Told :
    (h : Host) (outcome : Outcome (Unit {0})) (answers : AutoAnswers)
    → Told 0 1 h (run_command h outcome answers).0
unfolding run_command
run_command-Told h (Outcome.failed m) answers = settle-Told h (h, Outcome.failed m) (Told-nothing h)
run_command-Told h (Outcome.done _) answers =
    settle-Told h (maybe_auto_compact h answers) (maybe_auto_compact-Told h answers)
