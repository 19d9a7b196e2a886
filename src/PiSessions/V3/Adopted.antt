-- ===== src/PiSessions/V3/Adopted.antt =====
-- pi-sessions/v3.ts and do-session-repo.ts: a file that is read can be adopted.
use saku.Base.{
  ℕ, String, true, false, Option, none, some, List, [], ◌∷◌, ◌≡◌, refl, sym, ap, ◌∙◌, subst, mem?,
  reverse, or_else, is_some,
}
use saku.Base.Map.{has, get}
use saku.Session.Types.{Entry, SessionMutation, Result, ok}
use saku.Session.State.{SessionState, initial, replay}
use saku.Session.Invariant.{IsValid}
use saku.Session.Invariant.Replay.{replay-IsValid}
use saku.Session.Replayable.{entries_of, replay-total, replay-entries, initial-Tracks}
use saku.Session.Fork.Ordered.{IsOrdered, ids_behind, replay-IsOrdered}
use saku.Session.Storage.{Value, DoSessionStorage, create, load}
use saku.Session.Storage.Recovery.{Shuffle, load_recovers}
use saku.Session.Storage.History.{no_keys, create-IsSynced}
use saku.Session.Repo.{
  Repo, keys_of, is_taken, is_session_id, import_session, metadata_of, put_all, append_all,
}
use saku.Session.Repo.Adoption.{import_session-free}
use saku.Session.Repo.Forking.{append_all-IsSynced}
use saku.PiSessions.Json.{JsonFields, Platform}
use saku.PiSessions.V3.{
  V3Entry, V3ParseState, Parse, parsed, ◌>>=◌, Fault, require, no_lines, not_a_session, thrown,
}
use saku.PiSessions.V3.Tails.{path_from_leaf}
use saku.PiSessions.V3.Read.{PiSessionData, session_data, parse_v3, apply_lines, header_line}
use saku.PiSessions.V3.Steps.{>>=-eq-parsed, parsed_injective}
use saku.PiSessions.V3.Chained.{LabelsKnown, IsChained, apply_lines-IsChained, last_id}
use saku.PiSessions.Common.{SessionHeader, parse_v3_header, behind_header}
use saku.PiSessions.V3.Log.{log_with_pin, log-Replayable, log-last_id, log-main_lane}

module _ (js : Platform) where
  -- A parse that succeeds read a header and every line behind it.
  pub parse_v3-eq-parsed :
      (lines : List String) (data' : PiSessionData)
      → parse_v3 js lines ≡ parsed data'
      → (header : SessionHeader) × (st : V3ParseState) × (path : List V3Entry) × (parse_v3_header js
            (or_else (header_line js lines) JsonFields.blank)
          ≡ some header)
        × (apply_lines js 2 (behind_header lines) no_lines ≡ parsed st)
        × (session_data js header st path ≡ data')
  unfolding parse_v3
  parse_v3-eq-parsed lines data' =
      at (parse_v3_header js (or_else (header_line js lines) JsonFields.blank)) refl
    where
      at :
          (found : Option SessionHeader)
          → parse_v3_header js (or_else (header_line js lines) JsonFields.blank) ≡ found
          → (elim found as (λ _. Parse PiSessionData) [
            | none ↦ thrown not_a_session
            | some header ↦ do
              st ← apply_lines js 2 (behind_header lines) no_lines
              path ← require (path_from_leaf st) 0 Fault.out_of_fuel
              parsed (session_data js header st path)
          ])
            ≡ parsed data'
          → (header : SessionHeader) × (st : V3ParseState) × (path : List V3Entry)
            × (parse_v3_header js (or_else (header_line js lines) JsonFields.blank) ≡ some header)
            × (apply_lines js 2 (behind_header lines) no_lines ≡ parsed st)
            × (session_data js header st path ≡ data')
      at none there h = cc
      at (some header) there h =
          let (st, applied, h₁) =
            >>=-eq-parsed (apply_lines js 2 (behind_header lines) no_lines) _ h in
          let (path, _, h₂) = >>=-eq-parsed (require (path_from_leaf st) 0 _) _ h₁ in
          (header, st, path, there, applied, parsed_injective h₂)

-- A session without entries has the main lane at null.
main_lane_empty :
    (t : SessionState)
    → IsValid t
    → IsOrdered t
    → last_id t.entries ≡ none
    → get "main" t.lanes ≡ some none
main_lane_empty t v o h = at t.entries o.complete h (get "main" t.lanes) refl
  where
    no_text : (id : String) → ¬ (mem? id [] ≡ true)
    no_text id h = cc

    none_some : (e : Entry) (es : List Entry) → ¬ (last_id (e ∷ es) ≡ none)
    none_some e [] h = cc
    none_some e (f ∷ es) h = none_some f es h

    at :
        (es : List Entry)
        → ((id : String) → mem? id (ids_behind [] es) ≡ has id t.entries_by_id)
        → last_id es ≡ none
        → (leaf : Option (Option String)) → get "main" t.lanes ≡ leaf
        → get "main" t.lanes ≡ some none
    at (e ∷ es) complete h leaf found = absurd (none_some e es h)
    at [] complete h none found = absurd (absent (sym (ap is_some found) ∙ v.main_lane))
      where
        absent : ¬ (false ≡ true)
        absent h = cc
    at [] complete h (some none) found = found
    at [] complete h (some (some id)) found =
        absurd (no_text id (complete id ∙ v.lanes_live "main" found))

last_case :
    (js : Platform) (st : V3ParseState) (c : IsChained js st) (path : List V3Entry)
    (t : SessionState)
    → replay initial (log_with_pin js st path) ≡ ok t
    → get "main" t.lanes ≡ some (last_id t.entries)
unfolding initial
last_case js st c path t h = at st.last_entry_id refl
  where
    at_end : last_id t.entries ≡ st.last_entry_id
    at_end =
        ap last_id (replay-entries initial t (log_with_pin js st path) h) ∙ log-last_id js st c path

    at :
        (last : Option String)
        → st.last_entry_id ≡ last
        → get "main" t.lanes ≡ some (last_id t.entries)
    at none same =
        main_lane_empty t (replay-IsValid t (log_with_pin js st path) h)
          (replay-IsOrdered t (log_with_pin js st path) h) (at_end ∙ same)
        ∙ ap some (sym (at_end ∙ same))
    at (some leaf) same = log-main_lane js st c path t leaf h same ∙ ap some (sym (at_end ∙ same))

parse_v3-replays :
    (js : Platform) (lines : List String) (read : PiSessionData)
    → parse_v3 js lines ≡ parsed read
    → LabelsKnown [] read.mutations
    → (t : SessionState) × (replay initial read.mutations ≡ ok t)
      × (get "main" t.lanes ≡ some (last_id t.entries))
unfolding session_data log_with_pin
parse_v3-replays js lines read h labelled =
    let (header, st, path, _, applied, made) = parse_v3-eq-parsed js lines read h in
    let c = apply_lines-IsChained js 2 (behind_header lines) st applied in
    let written : log_with_pin js st (reverse path) ≡ read.mutations =
      ap (λ (d : PiSessionData). d.mutations) made in
    let (t, replayed) =
      replay-total initial 0 [] (log_with_pin js st (reverse path)) initial-Tracks
        (log-Replayable js st c (reverse path) (subst (LabelsKnown []) (sym written) labelled)) in
    (t, ap (replay initial) (sym written) ∙ replayed, last_case js st c (reverse path) t replayed)

import_session-replayed :
    (repo : Repo) (id cwd : String) (n : ℕ) (ms : List SessionMutation) (t : SessionState)
    → replay initial ms ≡ ok t
    → is_session_id id ≡ true
    → is_taken repo id ≡ false
    → (keys_of repo id).log ≡ []
    → (st : DoSessionStorage) × ((import_session repo id cwd n ms).1 ≡ ok st) × (st.state ≡ t)
unfolding append_all create
import_session-replayed repo id cwd n ms t replayed valid free unlogged =
    let m = metadata_of id n cwd none in
    let st = record (append_all (create m no_keys) ms) { state = t } in
    let synced = append_all-IsSynced (create m no_keys) ms t (create-IsSynced m) replayed in
    (
      st,
      ap (λ (r : Repo × Result DoSessionStorage). r.1)
            (import_session-free repo id cwd n ms valid free)
          ∙ ap (λ l. load (record { meta = some (Value.metadata m); log = put_all l ms }) id)
              unlogged
          ∙ load_recovers st st.keys.log synced Shuffle.same,
      refl,
    )

-- A file that is read is adopted, where the labels of its mutations name entries before them, under a
-- free identifier with no log left behind: the import succeeds, the session has the entries that were
-- read, in order, and its main lane is at the last of them, or at null where there is none.
pub parse_v3-imports :
    (js : Platform) (lines : List String) (read : PiSessionData) (repo : Repo) (id : String)
    → parse_v3 js lines ≡ parsed read
    → LabelsKnown [] read.mutations
    → is_session_id id ≡ true
    → is_taken repo id ≡ false
    → (keys_of repo id).log ≡ []
    → (st : DoSessionStorage) × ((import_session repo id read.cwd read.created_at read.mutations).1
        ≡ ok st)
      × (st.state.entries ≡ entries_of read.mutations)
      × (get "main" st.state.lanes ≡ some (last_id st.state.entries))
unfolding initial
parse_v3-imports js lines read repo id h labelled valid free unlogged =
    let (t, replayed, main) = parse_v3-replays js lines read h labelled in
    let (st, imported, same) =
      import_session-replayed repo id read.cwd read.created_at read.mutations t replayed valid free
        unlogged in
    (
      st,
      imported,
      ap (λ (u : SessionState). u.entries) same ∙ replay-entries initial t read.mutations replayed,
      subst (λ (u : SessionState). get "main" u.lanes ≡ some (last_id u.entries)) (sym same) main,
    )
