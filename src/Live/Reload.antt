-- ===== src/Live/Reload.antt =====
-- live.ts: a read that lands on a trail that is loaded, as on a reconnect.
use saku.Base.{String, ℕ, true, ◌||◌, List, [], ◌∷◌, ◌≡◌, refl, ap, ◌∙◌, Bool-cases, inl, inr, mem?}
use saku.Live.{
  Entry, TrailState, Live, SessionEvent, fold_entry_appended, fold_live, fold_all,
  fold_trail_loaded,
}
use saku.Live.Loaded.{ids, shown, mem?-merge}
use saku.Live.Streaming.{is_success}
use saku.Live.Tail.{is_replayed, fold_entry_appended-loaded}

-- What streams onto a loaded trail is not buffered, and the trail stays loaded.
abbrev Stays : Live → Live → Type 0
Stays state next = (next.pending ≡ state.pending) × (is_success next.trail ≡ true)

fold_entry_appended-Stays :
    (state : Live) (t : TrailState) (e : Entry)
    → state.trail ≡ t
    → is_success t ≡ true
    → Stays state (fold_entry_appended state e)
fold_entry_appended-Stays state (TrailState.success loaded) e at w =
    let step = fold_entry_appended-loaded state e loaded at in
    elim (Bool-cases (is_replayed e loaded)) [
      | inl old ↦ rw (step, old) (refl, rw (at) refl)
      | inr new ↦ rw (step, new) (refl, refl)
    ]
fold_entry_appended-Stays state TrailState.unloaded e at w = cc w
fold_entry_appended-Stays state (TrailState.failure message) e at w = cc w

fold_live-Stays :
    (state : Live) (event : SessionEvent)
    → is_success state.trail ≡ true
    → Stays state (fold_live state event)
unfolding fold_live
fold_live-Stays state (SessionEvent.entry_appended e) w =
    fold_entry_appended-Stays state state.trail e refl w
fold_live-Stays state (SessionEvent.message_start _) w = (refl, w)
fold_live-Stays state (SessionEvent.message_end _) w = (refl, w)
fold_live-Stays state (SessionEvent.message_update _ _) w = (refl, w)
fold_live-Stays state (SessionEvent.tool_execution_start _ _ _) w = (refl, w)
fold_live-Stays state (SessionEvent.tool_execution_update _ _ _) w = (refl, w)
fold_live-Stays state (SessionEvent.tool_execution_end _ _ _) w = (refl, w)
fold_live-Stays state SessionEvent.settled w = (refl, w)
fold_live-Stays state SessionEvent.compaction_end w = (refl, w)
fold_live-Stays state SessionEvent.unhandled w = (refl, w)
fold_live-Stays state (SessionEvent.compaction_start _) w = (refl, w)

fold_all-Stays :
    (state : Live) (events : List SessionEvent)
    → is_success state.trail ≡ true
    → (fold_all state events).pending ≡ state.pending
unfolding fold_all
fold_all-Stays state [] w = refl
fold_all-Stays state (event ∷ events) w =
    let (same, loaded) = fold_live-Stays state event w in
    fold_all-Stays (fold_live state event) events loaded ∙ same

-- A read that lands on a trail that was loaded replaces it: after any events, an identifier is in the trail
-- exactly if the read brought it or it was buffered before. What the trail had, and what streamed onto it
-- while the read was under way, is gone unless the read brought it.
pub fold_trail_loaded-replaces :
    (state : Live) (events : List SessionEvent) (entries : List Entry) (n : ℕ) (x : String)
    → is_success state.trail ≡ true
    → mem? x (ids (shown (fold_trail_loaded (fold_all state events) entries n).trail))
      ≡ (mem? x (ids entries) || mem? x (ids state.pending))
unfolding fold_trail_loaded
fold_trail_loaded-replaces state events entries n x w =
    mem?-merge x (fold_all state events) entries
    ∙ ap (λ l. mem? x (ids entries) || mem? x (ids l)) (fold_all-Stays state events w)
