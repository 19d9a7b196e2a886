-- ===== src/Host/Run.antt =====
-- session-machine.ts: the work of a run and of a compaction. What the agent, its compaction and the trail
-- answer are arguments, as is whether the run was told to stop.
use saku.Base.{String, Bool, true, false, not, Option, none, some, if◌then◌else◌, str_eq}
use saku.Host.Types.{Host, Outcome, HostEntry, WireEvent, Reason, Preparation, append, emit}

-- What a compaction meets: the log's read, the preparation, the library's summary, the append of its
-- entry and the read that rebuilds the context, and whether it was aborted by then.
pub record CompactionAnswers : Type 0 where
  pub log : Outcome (Unit {0})
  pub preparation : Preparation
  pub summary : Outcome String
  pub appended : Outcome (Unit {0})
  pub rebuilt : Outcome (Unit {0})
  pub aborted : Bool

-- A compaction that failed after its start: an abort settles as success, without a result.
abbrev pub compaction_failed : Host → Reason → Bool → String → Host × Outcome (Option String)
compaction_failed h reason true message =
    (emit h (WireEvent.compaction_end reason true none), Outcome.done none)
compaction_failed h reason false message =
    (emit h (WireEvent.compaction_end reason false (some message)), Outcome.failed message)

-- The part of `runCompaction` after `compaction_start`.
unfoldable pub compact : Host → Reason → CompactionAnswers → Host × Outcome (Option String)
compact h reason answers = elim answers.summary [
  | Outcome.failed message ↦ compaction_failed h reason answers.aborted message
  | Outcome.done summary ↦ elim answers.appended [
    | Outcome.failed message ↦ compaction_failed h reason answers.aborted message
    | Outcome.done _ ↦
        let h' = append h (HostEntry.compaction summary) in
        elim answers.rebuilt [
          | Outcome.failed message ↦ compaction_failed h' reason answers.aborted message
          | Outcome.done _ ↦
              (emit h' (WireEvent.compaction_end reason false none), Outcome.done (some summary))
        ]
  ]
]

unfoldable pub run_compaction : Host → Reason → CompactionAnswers → Host × Outcome (Option String)
run_compaction h reason answers = elim h.model [
  | none ↦ (h, Outcome.failed "no model selected for this thread")
  | some _ ↦ elim answers.log [
    | Outcome.failed message ↦ (h, Outcome.failed message)
    | Outcome.done _ ↦ elim answers.preparation [
      | Preparation.unprepared message ↦ (h, Outcome.failed message)
      | Preparation.nothing_to_compact ↦ (h, Outcome.done none)
      | Preparation.prepared ↦ compact (emit h (WireEvent.compaction_start reason)) reason answers
    ]
  ]
]

-- `maybeAutoCompact`: the last assistant message's stop reason, if there is one, and whether the library
-- says that the context is due.
pub record AutoAnswers : Type 0 where
  pub stop_reason : Option String
  pub log : Outcome (Unit {0})
  pub due : Bool
  pub compaction : CompactionAnswers

abbrev pub is_cut_short : String → Bool
is_cut_short reason = if str_eq reason "aborted" then true else str_eq reason "error"

abbrev pub forget : Host × Outcome (Option String) → Host × Outcome (Unit {0})
forget (h, Outcome.done _) = (h, Outcome.done tt)
forget (h, Outcome.failed message) = (h, Outcome.failed message)

-- The check of `maybeAutoCompact` once compaction is enabled and a message and a model are there.
abbrev pub compact_if_due : Host → AutoAnswers → Host × Outcome (Unit {0})
compact_if_due h answers = elim answers.log [
  | Outcome.failed message ↦ (h, Outcome.failed message)
  | Outcome.done _ ↦
      if answers.due
      then forget (run_compaction h Reason.threshold answers.compaction)
      else (h, Outcome.done tt)
]

unfoldable pub maybe_auto_compact : Host → AutoAnswers → Host × Outcome (Unit {0})
maybe_auto_compact h answers =
    if not h.compaction_enabled then (h, Outcome.done tt) else elim answers.stop_reason [
      | none ↦ (h, Outcome.done tt)
      | some reason ↦ elim h.model [
        | none ↦ (h, Outcome.done tt)
        | some _ ↦ if is_cut_short reason then (h, Outcome.done tt) else compact_if_due h answers
      ]
    ]

-- How the work of a state ends: the event that it sends to its machine.
pub data Ending : Type 0 where
  finished : Ending
  broke : (message : String) → Ending

-- `runCommand` and the handler of its failure, which emits `settled` too. The auto-title is best-effort
-- and touches nothing of the host.
unfoldable pub settle : Host × Outcome (Unit {0}) → Host × Ending
settle (h, Outcome.done _) = (emit h WireEvent.settled, Ending.finished)
settle (h, Outcome.failed message) = (emit h WireEvent.settled, Ending.broke message)

unfoldable pub run_command : Host → Outcome (Unit {0}) → AutoAnswers → Host × Ending
run_command h (Outcome.failed message) answers = settle (h, Outcome.failed message)
run_command h (Outcome.done _) answers = settle (maybe_auto_compact h answers)
