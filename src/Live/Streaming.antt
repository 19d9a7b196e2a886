-- ===== src/Live/Streaming.antt =====
-- live.ts: nothing that streams while the trail is not loaded is lost.
use saku.Base.{
  append-nil, append_assoc, ℕ, String, Bool, true, false, ◌||◌, List, [], ◌∷◌, ◌++◌, ◌≡◌, refl, sym,
  ap, ◌∙◌, if◌then◌else◌, or_else, mem?,
}
use saku.Live.{
  Entry, TrailState, Live, entry_id, last, is_last, is_seen, is_message, clear_message, max,
  fold_entry_appended, fold_live, fold_all, SessionEvent, fold_trail_loaded,
}
use saku.Live.Loaded.{ids, shown, ids-append, mem?-append, mem?-merge}

-- The entries that some events append, oldest first.
unfoldable pub appended : List SessionEvent → List Entry
appended [] = []
appended (SessionEvent.entry_appended e ∷ events) = e ∷ appended events
appended (_ ∷ events) = appended events

abbrev pub is_success : TrailState → Bool
is_success (TrailState.success _) = true
is_success _ = false

buffered :
    (state : Live) (e : Entry)
    → is_success state.trail ≡ false
    → fold_entry_appended state e ≡ record state { pending = state.pending ++ e ∷ [] }
unfolding fold_entry_appended
buffered state e waiting = at state.trail waiting
  where
    at :
        (t : TrailState)
        → is_success t ≡ false
        → (elim t as (λ _. Live) [
          | TrailState.success loaded ↦
              if is_last (entry_id e) (last loaded.entries) || is_seen e.seq loaded.tail_seq
              then state
              else record state {
                live = if is_message e then clear_message state.live else state.live;
                trail = TrailState.success record {
                  entries = loaded.entries ++ e ∷ [];
                  tail_seq = max loaded.tail_seq (or_else e.seq 0);
                };
              }
          | TrailState.unloaded ↦ record state { pending = state.pending ++ e ∷ [] }
          | TrailState.failure message ↦ record state { pending = state.pending ++ e ∷ [] }
        ])
          ≡ record state { pending = state.pending ++ e ∷ [] }
    at (TrailState.success _) h = cc h
    at TrailState.unloaded _ = refl
    at (TrailState.failure _) _ = refl

-- What an event does to the buffer and to the trail while the trail is not loaded.
abbrev Buffers : Live → List Entry → Live → Type 0
Buffers before es after = (after.pending ≡ before.pending ++ es) × (after.trail ≡ before.trail)

fold_live-Buffers :
    (state : Live) (event : SessionEvent)
    → is_success state.trail ≡ false
    → Buffers state (appended (event ∷ [])) (fold_live state event)
unfolding fold_live appended
fold_live-Buffers state (SessionEvent.entry_appended e) w = rw (buffered state e w) (refl, refl)
fold_live-Buffers state (SessionEvent.message_start _) w = (sym (append-nil _), refl)
fold_live-Buffers state (SessionEvent.message_end _) w = (sym (append-nil _), refl)
fold_live-Buffers state (SessionEvent.message_update _ _) w = (sym (append-nil _), refl)
fold_live-Buffers state (SessionEvent.tool_execution_start _ _ _) w = (sym (append-nil _), refl)
fold_live-Buffers state (SessionEvent.tool_execution_update _ _ _) w = (sym (append-nil _), refl)
fold_live-Buffers state (SessionEvent.tool_execution_end _ _ _) w = (sym (append-nil _), refl)
fold_live-Buffers state SessionEvent.settled w = (sym (append-nil _), refl)
fold_live-Buffers state SessionEvent.compaction_end w = (sym (append-nil _), refl)
fold_live-Buffers state SessionEvent.unhandled w = (sym (append-nil _), refl)
fold_live-Buffers state (SessionEvent.compaction_start _) w = (sym (append-nil _), refl)

appended-one :
    (event : SessionEvent) (events : List SessionEvent)
    → appended (event ∷ events) ≡ appended (event ∷ []) ++ appended events
unfolding appended
appended-one (SessionEvent.entry_appended e) events = refl
appended-one (SessionEvent.message_start _) events = refl
appended-one (SessionEvent.message_end _) events = refl
appended-one (SessionEvent.message_update _ _) events = refl
appended-one (SessionEvent.tool_execution_start _ _ _) events = refl
appended-one (SessionEvent.tool_execution_update _ _ _) events = refl
appended-one (SessionEvent.tool_execution_end _ _ _) events = refl
appended-one SessionEvent.settled events = refl
appended-one SessionEvent.compaction_end events = refl
appended-one SessionEvent.unhandled events = refl
appended-one (SessionEvent.compaction_start _) events = refl

fold_all-pending :
    (state : Live) (events : List SessionEvent)
    → is_success state.trail ≡ false
    → (fold_all state events).pending ≡ state.pending ++ appended events
unfolding fold_all appended
fold_all-pending state [] w = sym (append-nil state.pending)
fold_all-pending state (event ∷ events) w =
    fold_all-pending (fold_live state event) events (rw (step.1) w)
    ∙ rw (step.0) (append_assoc state.pending (appended (event ∷ [])) (appended events))
    ∙ ap (λ l. state.pending ++ l) (sym (appended-one event events))
  where
    step : Buffers state (appended (event ∷ [])) (fold_live state event)
    step = fold_live-Buffers state event w

-- Nothing that streams while the trail is not loaded is lost: after any events and the read that lands,
-- an identifier is in the trail exactly if the read brought it, it was buffered before, or an event
-- appended it.
pub fold_trail_loaded-keeps :
    (state : Live) (events : List SessionEvent) (entries : List Entry) (n : ℕ) (x : String)
    → is_success state.trail ≡ false
    → mem? x (ids (shown (fold_trail_loaded (fold_all state events) entries n).trail))
      ≡ (mem? x (ids entries) || (mem? x (ids state.pending) || mem? x (ids (appended events))))
unfolding fold_trail_loaded
fold_trail_loaded-keeps state events entries n x w =
    mem?-merge x (fold_all state events) entries
    ∙ ap (λ l. mem? x (ids entries) || mem? x (ids l)) (fold_all-pending state events w)
    ∙ ap (λ l. mem? x (ids entries) || mem? x l) (ids-append state.pending (appended events))
    ∙ ap (λ b. mem? x (ids entries) || b)
        (mem?-append x (ids state.pending) (ids (appended events)))
