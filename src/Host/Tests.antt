-- ===== src/Host/Tests.antt =====
-- The host machine at concrete inputs.
use saku.Base.{String, true, false, some, List, [], ◌∷◌, ◌≡◌, refl, inl, mem?}
use saku.Hub.Types.{ThreadState}
use saku.Host.Types.{Host, HostState, Model, Outcome, Preparation, wire_state_of}
use saku.Host.Config.{
  Fits, apply_thinking_level, apply_model, effective_level, apply_thinking_level-Fits,
  apply_model-Fits,
}
use saku.Host.Run.{AutoAnswers, run_command}
use saku.Host.Machine.{HostEvent, transition, transitions}
use saku.Host.Lifecycle.{Step, seen, transition-Step}
use saku.Host.Agreement.{Agrees, transitions-Agrees, transitions-crashed}
use saku.Host.Balance.{Told, run_command-Told}

-- A model library whose models support two levels and clamp to the first of them.
abbrev two_levels : Model → List String
two_levels _ = "off" ∷ "high" ∷ []

abbrev clamp_off : Model → String → String
clamp_off _ _ = "off"

clamp_off-supported :
    (model : Model) (level : String) → mem? (clamp_off model level) (two_levels model) ≡ true
clamp_off-supported _ _ = refl

abbrev small_model : Model
small_model = record { provider = "p"; id = "m" }

abbrev idle_host : Host
idle_host = record {
  machine = HostState.idle;
  model = some small_model;
  thinking_level = "high";
  compaction_enabled = true;
  appended = [];
  emitted = [];
  pushed = ThreadState.idle;
  aborts = 0;
}

abbrev crashed_host : Host
crashed_host = record idle_host { machine = HostState.crashed "lost" }

abbrev prompted : List HostEvent
prompted =
    HostEvent.prompt_requested "hi" []
    ∷ HostEvent.steer_requested "more"
    ∷ HostEvent.run_finished
    ∷ []

transition-Step_example :
    Step
      (seen idle_host)
      (seen (transition two_levels clamp_off idle_host (HostEvent.prompt_requested "hi" [])).0)
transition-Step_example =
    transition-Step two_levels clamp_off idle_host (HostEvent.prompt_requested "hi" [])

idle_host-Agrees : Agrees (seen idle_host)
unfolding wire_state_of
idle_host-Agrees = inl refl

transitions-Agrees_example : Agrees (seen (transitions two_levels clamp_off idle_host prompted))
transitions-Agrees_example =
    transitions-Agrees two_levels clamp_off idle_host prompted idle_host-Agrees

transitions-crashed_example :
    (transitions two_levels clamp_off crashed_host prompted).machine ≡ HostState.crashed "lost"
transitions-crashed_example =
    transitions-crashed two_levels clamp_off crashed_host prompted "lost" refl

apply_thinking_level-Fits_example :
    Fits two_levels clamp_off
      (apply_thinking_level two_levels clamp_off idle_host "low" (Outcome.done tt)).0.model
      (apply_thinking_level two_levels clamp_off idle_host "low" (Outcome.done tt)).0.thinking_level
apply_thinking_level-Fits_example =
    apply_thinking_level-Fits two_levels clamp_off clamp_off-supported idle_host "low"
      (Outcome.done tt)

abbrev switched : Host × Outcome Model
switched =
    apply_model two_levels clamp_off idle_host (some small_model) true "p" "m" (Outcome.done tt)
      (Outcome.done tt)

switched-done : switched.1 ≡ Outcome.done small_model
unfolding apply_model apply_thinking_level effective_level
switched-done = refl

apply_model-Fits_example :
    (switched.0.model ≡ some small_model)
    × Fits two_levels clamp_off (some small_model) switched.0.thinking_level
apply_model-Fits_example =
    apply_model-Fits two_levels clamp_off clamp_off-supported idle_host (some small_model) true "p"
      "m" (Outcome.done tt) (Outcome.done tt) small_model switched-done

abbrev due : AutoAnswers
due = record {
  stop_reason = some "stop";
  log = Outcome.done tt;
  due = true;
  compaction = record {
    log = Outcome.done tt;
    preparation = Preparation.prepared;
    summary = Outcome.failed "no answer";
    appended = Outcome.done tt;
    rebuilt = Outcome.done tt;
    aborted = false;
  };
}

run_command-Told_example : Told 0 1 idle_host (run_command idle_host (Outcome.done tt) due).0
run_command-Told_example = run_command-Told idle_host (Outcome.done tt) due
