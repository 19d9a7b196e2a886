-- ===== src/Host/Config.antt =====
-- session-machine.ts: the commands that set the model and the thinking level. What the model library says
-- of a model's levels is a parameter; the outcome of an append is an argument. A message is cut to its fixed words.
use saku.Base.{
  String, Bool, true, false, Option, none, some, List, ◌≡◌, subst, arith, if◌then◌else◌, str_eq,
  eq_iff, mem?,
}
use saku.Host.Types.{Host, Model, Outcome, HostEntry, append}

module _ (supported : Model → List String) (clamp : Model → String → String) where
  -- The level that takes effect: without a model any of them does.
  unfoldable pub effective_level : Option Model → String → String
  effective_level none level = level
  effective_level (some model) level =
      if mem? level (supported model) then level else clamp model level

  unfoldable pub apply_thinking_level : Host → String → Outcome (Unit {0}) → Host × Outcome String
  apply_thinking_level h level outcome =
      let effective = effective_level h.model level in
      let chosen = record h { thinking_level = effective } in
      if str_eq effective h.thinking_level then (h, Outcome.done effective) else elim outcome [
        | Outcome.failed message ↦ (chosen, Outcome.failed message)
        | Outcome.done _ ↦
            (append chosen (HostEntry.thinking_level_change effective), Outcome.done effective)
      ]

  -- The answer of `applyModel` once the level was clamped again.
  abbrev pub answer_model : Model → Host × Outcome String → Host × Outcome Model
  answer_model model (h, Outcome.done _) = (h, Outcome.done model)
  answer_model model (h, Outcome.failed message) = (h, Outcome.failed message)

  unfoldable pub apply_model :
      Host
      → Option Model
      → (has_auth : Bool) → (provider model_id : String) → Outcome (Unit {0})
      → Outcome (Unit {0})
      → Host × Outcome Model
  apply_model h none has_auth provider model_id appended clamped =
      (h, Outcome.failed "unknown model")
  apply_model h (some model) false provider model_id appended clamped =
      (h, Outcome.failed "no API key configured")
  apply_model h (some model) true provider model_id (Outcome.failed message) clamped =
      (record h { model = some model }, Outcome.failed message)
  apply_model h (some model) true provider model_id (Outcome.done _) clamped =
      let changed =
        append (record h { model = some model }) (HostEntry.model_change provider model_id) in
      answer_model model (apply_thinking_level changed changed.thinking_level clamped)

  -- The level is one that the model supports.
  abbrev pub Fits : Option Model → String → Type 0
  Fits none level = Unit
  Fits (some model) level = mem? level (supported model) ≡ true

  model-apply_thinking_level :
      (h : Host) (level : String) (outcome : Outcome (Unit {0}))
      → (apply_thinking_level h level outcome).0.model ≡ h.model
  unfolding apply_thinking_level
  model-apply_thinking_level h level outcome = ground arith

  level-apply_thinking_level :
      (h : Host) (level : String) (outcome : Outcome (Unit {0}))
      → (apply_thinking_level h level outcome).0.thinking_level ≡ effective_level h.model level
  unfolding apply_thinking_level
  level-apply_thinking_level h level outcome =
      ground (arith, eq_iff (effective_level h.model level) h.thinking_level)

  module _
      (clamp-supported : (model : Model) (level : String)
        → mem? (clamp model level) (supported model) ≡ true) where
    effective_level-Fits :
        (model : Option Model) (level : String) → Fits model (effective_level model level)
    unfolding effective_level
    effective_level-Fits none level = tt
    effective_level-Fits (some model) level = ground (arith, clamp-supported model level)

    -- If the model library clamps to a level that the model supports, then whatever level is asked for,
    -- and whether or not the trail takes the entry, the thread's level afterwards fits its model.
    pub apply_thinking_level-Fits :
        (h : Host) (level : String) (outcome : Outcome (Unit {0}))
        → Fits
            (apply_thinking_level h level outcome).0.model
            (apply_thinking_level h level outcome).0.thinking_level
    apply_thinking_level-Fits h level outcome =
        rw (model-apply_thinking_level h level outcome, level-apply_thinking_level h level outcome)
          (effective_level-Fits h.model level)

    -- If the model library clamps to a level that the model supports, a change of the model that succeeds
    -- leaves the thread with that model and with a level that fits it.
    pub apply_model-Fits :
        (h : Host) (found : Option Model) (has_auth : Bool) (provider model_id : String)
        (appended clamped : Outcome (Unit {0})) (model : Model)
        → (apply_model h found has_auth provider model_id appended clamped).1 ≡ Outcome.done model
        → ((apply_model h found has_auth provider model_id appended clamped).0.model ≡ some model)
          × Fits
              (some model)
              (apply_model h found has_auth provider model_id appended clamped).0.thinking_level
    unfolding apply_model
    apply_model-Fits h none a p i appended clamped model e = cc e
    apply_model-Fits h (some m) false p i appended clamped model e = cc e
    apply_model-Fits h (some m) true p i (Outcome.failed _) clamped model e = cc e
    apply_model-Fits h (some m) true p i (Outcome.done _) clamped model e =
        by_answer (apply_thinking_level changed h.thinking_level clamped) e
          (model-apply_thinking_level changed h.thinking_level clamped)
          (rw (level-apply_thinking_level changed h.thinking_level clamped)
            (effective_level-Fits (some m) h.thinking_level))
      where
        changed : Host
        changed = append (record h { model = some m }) (HostEntry.model_change p i)

        by_answer :
            (x : Host × Outcome String)
            → (answer_model m x).1 ≡ Outcome.done model
            → x.0.model ≡ some m
            → Fits (some m) x.0.thinking_level
            → ((answer_model m x).0.model ≡ some model)
              × Fits (some model) (answer_model m x).0.thinking_level
        by_answer (g, Outcome.done _) e kept fits = (
          subst (λ k. g.model ≡ some k) (same e) kept,
          subst (λ k. Fits (some k) g.thinking_level) (same e) fits,
        )
          where
            same : Outcome.done m ≡ Outcome.done model → m ≡ model
            same e = cc e
        by_answer (g, Outcome.failed _) e _ _ = cc e
