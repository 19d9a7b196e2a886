-- ===== src/Host/Machine.antt =====
-- session-machine.ts: the transition table. The seams' answers ride the event that asks for them; an event
-- that a state has no transition for is dropped.
use saku.Base.{suc, String, Bool, Option, none, some, List, [], ◌∷◌, ◌++◌}
use saku.Hub.Types.{ThreadState}
use saku.Host.Types.{
  Host, HostState, HostReply, Model, Outcome, HostEntry, Preparation, push_state, become,
}
use saku.Host.Config.{apply_thinking_level, apply_model}

pub data HostEvent : Type 0 where
  abort_requested run_finished compact_finished : HostEvent
  compact_failed run_failed : (message : String) → HostEvent
  compact_requested : (custom : Option String) → Outcome Preparation → HostEvent
  follow_up_requested steer_requested : (text : String) → HostEvent
  prompt_requested : (text : String) → (images : List String) → HostEvent
  set_auto_compaction_requested : (enabled : Bool) → HostEvent
  set_model_requested :
      (provider model_id : String)
      → Option Model
      → (has_auth : Bool) → (appended clamped : Outcome (Unit {0})) → HostEvent
  set_session_name_requested : (name : String) → Outcome (Unit {0}) → HostEvent
  set_thinking_level_requested : (level : String) → Outcome (Unit {0}) → HostEvent

abbrev pub reply_done : HostReply
reply_done = HostReply.reply_ok none none

-- `busyReply`, in a state that refuses runs.
unfoldable pub busy_reply : HostState → Option HostReply
busy_reply (HostState.compacting _) =
    some (HostReply.reply_failed "cannot start a run while compacting")
busy_reply (HostState.crashed _) = some (HostReply.reply_failed "host crashed; retry")
busy_reply (HostState.working _ _) = some (HostReply.reply_failed "agent is already processing")
busy_reply _ = none

unfoldable pub start_run : Host → HostState → Host × HostReply
start_run h run = elim h.model [
  | none ↦ (h, HostReply.reply_failed "no model selected for this thread; use set_model first")
  | some _ ↦ (become (push_state h ThreadState.working) run, reply_done)
]

-- The three run commands, in any state.
unfoldable pub request_run : Host → HostState → Host × HostReply
request_run h run = elim (busy_reply h.machine) [
  | some refusal ↦ (h, refusal)
  | none ↦ start_run h run
]

-- A compaction request in idle or interrupted.
unfoldable pub start_compaction : Host → Option String → Outcome Preparation → Host × HostReply
start_compaction h custom (Outcome.failed message) = (h, HostReply.reply_failed message)
start_compaction h custom (Outcome.done Preparation.prepared) =
    (become h (HostState.compacting custom), reply_done)
start_compaction h custom (Outcome.done _) = (h, HostReply.reply_failed "nothing to compact")

unfoldable pub request_compaction :
    Host → HostState → Option String → Outcome Preparation → Host × HostReply
request_compaction h (HostState.working _ _) custom answer =
    (h, HostReply.reply_failed "cannot compact while the agent is working")
request_compaction h (HostState.compacting _) custom answer =
    (h, HostReply.reply_failed "already compacting")
request_compaction h (HostState.crashed _) custom answer =
    (h, HostReply.reply_failed "host crashed; retry")
request_compaction h _ custom answer = start_compaction h custom answer

-- An abort stops the agent of a run in flight, and a compaction within it, which reads it in its answers;
-- elsewhere it is a no-op.
unfoldable pub request_abort : Host → HostState → Host × HostReply
request_abort h (HostState.working _ _) = (record h { aborts = suc h.aborts }, reply_done)
request_abort h _ = (h, reply_done)

abbrev pub reply_level : Host × Outcome String → Host × HostReply
reply_level (h, Outcome.done level) = (h, HostReply.reply_ok (some level) none)
reply_level (h, Outcome.failed message) = (h, HostReply.reply_failed message)

abbrev pub reply_model : Host × Outcome Model → Host × HostReply
reply_model (h, Outcome.done model) = (h, HostReply.reply_ok none (some model))
reply_model (h, Outcome.failed message) = (h, HostReply.reply_failed message)

unfoldable pub set_session_name : Host → String → Outcome (Unit {0}) → Host × HostReply
set_session_name h name (Outcome.failed message) = (h, HostReply.reply_failed message)
set_session_name h name (Outcome.done _) =
    (record h { appended = h.appended ++ HostEntry.name_change name ∷ [] }, reply_done)

-- The ends of a run and of a compaction, where one is in flight.
unfoldable pub finish_run : Host → HostState → HostState → Host
finish_run h (HostState.working _ _) next = become (push_state h ThreadState.idle) next
finish_run h _ next = h

unfoldable pub finish_compaction : Host → HostState → Host
finish_compaction h (HostState.compacting _) = become (push_state h ThreadState.idle) HostState.idle
finish_compaction h _ = h

abbrev pub replying : Host × HostReply → Host × Option HostReply
replying (h, reply) = (h, some reply)

module _ (supported : Model → List String) (clamp : Model → String → String) where
  unfoldable pub transition : Host → HostEvent → Host × Option HostReply
  transition h (HostEvent.prompt_requested text images) =
      replying (request_run h (HostState.working text images))
  transition h (HostEvent.steer_requested text) =
      replying (request_run h (HostState.working text []))
  transition h (HostEvent.follow_up_requested text) =
      replying (request_run h (HostState.working text []))
  transition h HostEvent.abort_requested = replying (request_abort h h.machine)
  transition h (HostEvent.compact_requested custom answer) =
      replying (request_compaction h h.machine custom answer)
  transition h (HostEvent.set_auto_compaction_requested enabled) =
      (record h { compaction_enabled = enabled }, some reply_done)
  transition h (HostEvent.set_session_name_requested name outcome) =
      replying (set_session_name h name outcome)
  transition h (HostEvent.set_model_requested provider model_id found has_auth appended clamped) =
      replying (
        reply_model
          (apply_model supported clamp h found has_auth provider model_id appended clamped))
  transition h (HostEvent.set_thinking_level_requested level outcome) =
      replying (reply_level (apply_thinking_level supported clamp h level outcome))
  transition h HostEvent.run_finished = (finish_run h h.machine HostState.idle, none)
  transition h (HostEvent.run_failed message) =
      (finish_run h h.machine (HostState.crashed message), none)
  transition h HostEvent.compact_finished = (finish_compaction h h.machine, none)
  transition h (HostEvent.compact_failed message) = (finish_compaction h h.machine, none)

  unfoldable pub transitions : Host → List HostEvent → Host
  transitions h [] = h
  transitions h (event ∷ events) = transitions (transition h event).0 events
