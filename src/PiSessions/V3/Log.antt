-- ===== src/PiSessions/V3/Log.antt =====
-- pi-sessions/v3.ts: the whole log of a file, the pin of the main lane included, replays.
use saku.Base.{
  ℕ, suc, ◌+◌, String, true, Option, none, some, List, [], ◌∷◌, ◌++◌, ◌≡◌, refl, sym, ap, ◌∙◌,
  subst, length, arith, append-nil,
}
use saku.Base.Map.{get, get-put_self}
use saku.Session.Types.{SessionMutation, ok, >>=-eq-ok}
use saku.Session.State.{SessionState, initial, replay, write_lane}
use saku.Session.Accepted.{apply_mutation-eq-ok, apply_lane-eq-ok}
use saku.Session.Storage.Recovery.{replay-append}
use saku.Session.Replayable.{
  known, Replayable, Replayable-append, all_after, entries_of, entries_of-append,
}
use saku.PiSessions.Json.{Platform}
use saku.PiSessions.V3.{V3Entry, V3ParseState}
use saku.PiSessions.V3.Tails.{synthesize}
use saku.PiSessions.V3.Read.{mutation_of, mutations_of, pin}
use saku.PiSessions.V3.Chained.{
  LabelsKnown, LabelsKnown-append, mutations_of-append, ids_of, IsChained, last_id, last_text,
}
use saku.PiSessions.V3.Mended.{
  mended, Replayable-mended, LabelsKnown-mended, all_after-mended, length-mended, entry_ids-mended,
}

module _ (js : Platform) where
  -- The whole log: the mended mutations and the pin.
  unfoldable pub log_with_pin : V3ParseState → List V3Entry → List SessionMutation
  log_with_pin st path =
      mutations_of js
        (synthesize st.raw_line_by_id path st.mutations ++ pin st.seq st.last_entry_id)

  module _ (st : V3ParseState) (c : IsChained js st) (path : List V3Entry) where
    abbrev tails : List SessionMutation
    tails = mended js st.raw_line_by_id path st.mutations

    abbrev pins : List SessionMutation
    pins = mutations_of js (pin st.seq st.last_entry_id)

    split : log_with_pin st path ≡ tails ++ pins
    unfolding log_with_pin
    split =
        mutations_of-append js (synthesize st.raw_line_by_id path st.mutations)
          (pin st.seq st.last_entry_id)

    ids_kept : all_after [] tails ≡ ids_of js st
    ids_kept = all_after-mended js st.raw_line_by_id path [] st.mutations

    counted : length tails ≡ st.seq
    counted = length-mended js st.raw_line_by_id path st.mutations ∙ c.counted

    pins-Replayable :
        (n : ℕ) (leaf : Option String)
        → n ≡ st.seq
        → known (ids_of js st) leaf ≡ true
        → Replayable n (ids_of js st) (mutations_of js (pin st.seq leaf))
    unfolding mutations_of mutation_of
    pins-Replayable n none same h = tt
    pins-Replayable n (some leaf) same h = (ap suc (sym same), h, tt)

    pub log-Replayable :
        LabelsKnown [] (log_with_pin st path) → Replayable 0 [] (log_with_pin st path)
    log-Replayable labelled =
        let (left, _) = LabelsKnown-append [] tails pins (subst (LabelsKnown []) split labelled) in
        let before = LabelsKnown-mended js st.raw_line_by_id path [] st.mutations left in
        subst (Replayable 0 []) (sym split) (
          Replayable-append 0 [] tails pins
            (Replayable-mended js st.raw_line_by_id path 0 [] st.mutations (c.chained before))
            (subst (λ i. Replayable (0 + length tails) i pins) (sym ids_kept)
              (pins-Replayable (0 + length tails) st.last_entry_id (omega (arith, counted))
                c.last_known)))

    entries_of-pins : (leaf : Option String) → entries_of (mutations_of js (pin st.seq leaf)) ≡ []
    unfolding mutations_of mutation_of
    entries_of-pins none = refl
    entries_of-pins (some leaf) = refl

    pub log-last_id : last_id (entries_of (log_with_pin st path)) ≡ st.last_entry_id
    log-last_id =
        ap (λ ms. last_id (entries_of ms)) split
        ∙ ap last_id (
            entries_of-append tails pins
            ∙ ap (◌++◌ (entries_of tails)) (entries_of-pins st.last_entry_id)
            ∙ append-nil (entries_of tails))
        ∙ ap last_text (entry_ids-mended js st.raw_line_by_id path st.mutations)
        ∙ c.last_is

    -- After the pin the main lane is at the last entry.
    pub log-main_lane :
        (t : SessionState) (leaf : String)
        → replay initial (log_with_pin st path) ≡ ok t
        → st.last_entry_id ≡ some leaf
        → get "main" t.lanes ≡ some (some leaf)
    unfolding mutations_of mutation_of write_lane
    log-main_lane t leaf h last =
        let pinned : log_with_pin st path
            ≡ tails ++ SessionMutation.lane (suc st.seq) "main" (some leaf) ∷ [] =
          split ∙ ap (λ l. tails ++ mutations_of js (pin st.seq l)) last in
        let (u, _, applied) =
          >>=-eq-ok (replay initial tails) _
            (sym (replay-append initial tails _) ∙ ap (replay initial) (sym pinned) ∙ h) in
        let (_, written) = apply_mutation-eq-ok u t _ applied in
        let (_, made) = apply_lane-eq-ok u t (suc st.seq) "main" (some leaf) written in
        ap (λ (x : SessionState). get "main" x.lanes) (sym made)
        ∙ get-put_self "main" (some leaf) u.lanes
