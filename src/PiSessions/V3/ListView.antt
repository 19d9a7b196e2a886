-- ===== src/PiSessions/V3/ListView.antt =====
-- pi-sessions/v3.ts: the cheap list view of a file agrees with its parse.
use saku.Base.{
  ℕ, suc, ◌+◌, String, Bool, true, false, Option, none, some, List, [], ◌∷◌, ◌≡◌, refl, sym, ap,
  ◌∙◌, subst, str_eq, eq_iff, arith, if◌then◌else◌, or_else, inl, inr, Bool-cases,
}
use saku.Base.Text.{trim, is_empty_text}
use saku.Session.Types.{EntryType}
use saku.Session.State.{is_message}
use saku.PiSessions.Json.{Json, JsonFields, Platform, field, as_text, text_field}
use saku.PiSessions.Common.{
  SessionHeader, ListView, is_text, when_text, keep_first, scan_line, scan_decoded, scan_rest,
  scan_lines, parse_line, parse_v3_header, behind_header,
}
use saku.PiSessions.V3.{
  V3ParseState, V3Entry, LineKind, line_kind, entry_type_of, parsed, no_lines, count_line, require,
  write_line,
}
use saku.PiSessions.V3.Read.{
  PiSessionData, apply_session_info, apply_label, apply_kind, apply_typed, apply_decoded,
  apply_lines, register_entry, custom_message_of, rest_of, write_name, write_label, v3_scan,
  scan_v3_lines, session_data, parse_v3, header_line, present,
}
use saku.PiSessions.V3.Adopted.{parse_v3-eq-parsed}
use saku.PiSessions.V3.Steps.{
  >>=-eq-parsed, parsed_injective, register_entry-eq-parsed, refuse-eq-parsed, LineStep, skips,
  names, labels, registers, apply_decoded-LineStep,
}

-- What a kind of line is to the list view.
abbrev names_session : LineKind → Bool
names_session LineKind.session_info = true
names_session _ = false

abbrev counts : LineKind → Bool
counts (LineKind.entry type) = is_message type
counts _ = false

line_kind-names_session : (s : String) → names_session (line_kind s) ≡ str_eq s "session_info"
unfolding line_kind entry_type_of
line_kind-names_session s = ground arith

line_kind-counts : (s : String) → counts (line_kind s) ≡ str_eq s "message"
unfolding line_kind entry_type_of
line_kind-counts s = elim (Bool-cases (str_eq s "message")) [
  | inl same ↦
      subst (λ t. counts (line_kind t) ≡ str_eq t "message") (sym ((eq_iff s "message").0 same))
        refl
  | inr other ↦ ground (arith, other)
]

-- What the parse knows of the list view.
abbrev view_of : V3ParseState → ListView
view_of st = record {
  name = st.name;
  message_count = st.message_count;
  first_message = st.first_message;
}

module _ (js : Platform) where
  -- A line of a kind, to the list view.
  abbrev seen_as : Bool → Bool → JsonFields → V3ParseState → ListView
  seen_as true counted obj st = record (view_of st) {
    name = when_text (trim (or_else (text_field "name" obj) ""));
  }
  seen_as false true obj st = record (view_of st) {
    message_count = st.message_count + 1;
    first_message = keep_first js st.first_message obj;
  }
  seen_as false false obj st = view_of st

  registered-view :
      (type : EntryType) (line : ℕ) (obj : JsonFields) (st next t : V3ParseState)
      (build : ℕ → JsonFields)
      → register_entry js st obj line type build ≡ parsed next
      → (counted : Bool) → count_line counted (keep_first js next.first_message obj) next ≡ t
      → seen_as false counted obj st ≡ view_of t
  unfolding write_line
  registered-view type line obj st next t build registered counted made =
      let (e, written, _, _, _) =
        register_entry-eq-parsed js st next obj line type build registered in
      subst
        (λ (n : V3ParseState).
          seen_as false counted obj st
          ≡ view_of (count_line counted (keep_first js n.first_message obj) n))
        written (at e counted)
      ∙ ap view_of made
    where
      at :
          (e : V3Entry) (counted : Bool)
          → let next = write_line st obj e in
            seen_as false counted obj st
            ≡ view_of (count_line counted (keep_first js next.first_message obj) next)
      at e true = refl
      at e false = refl

  apply_kind-view :
      (kind : LineKind) (line : ℕ) (obj : JsonFields) (st t : V3ParseState)
      → apply_kind js kind line obj st ≡ parsed t
      → seen_as (names_session kind) (counts kind) obj st ≡ view_of t
  unfolding apply_kind apply_session_info apply_label write_name write_label
  apply_kind-view LineKind.session_info line obj st t h =
      let (id, _, h₁) = >>=-eq-parsed (require (text_field "id" obj) line _) _ h in
      let (parent, _, h₂) = >>=-eq-parsed (require (text_field "parentId" obj) line _) _ h₁ in
      let (_, h₃) = refuse-eq-parsed _ _ _ _ h₂ in ap view_of (parsed_injective h₃)
  apply_kind-view LineKind.label line obj st t h =
      let (id, _, h₁) = >>=-eq-parsed (require (text_field "id" obj) line _) _ h in
      let (parent, _, h₂) = >>=-eq-parsed (require (text_field "parentId" obj) line _) _ h₁ in
      let (target, _, h₃) = >>=-eq-parsed (require (text_field "targetId" obj) line _) _ h₂ in
      let (_, h₄) = refuse-eq-parsed _ _ _ _ h₃ in ap view_of (parsed_injective h₄)
  apply_kind-view LineKind.custom_message line obj st t h =
      registered-view EntryType.message line obj st t t (custom_message_of obj) h false refl
  apply_kind-view (LineKind.entry type) line obj st t h =
      let (next, registered, h₁) =
        >>=-eq-parsed (register_entry js st obj line type (λ _. rest_of obj)) _ h in
      registered-view type line obj st next t (λ _. rest_of obj) registered (is_message type)
        (parsed_injective h₁)
  apply_kind-view LineKind.unknown line obj st t h = ap view_of (parsed_injective h)

  scan_line-seen :
      (obj : JsonFields) (st : V3ParseState)
      → scan_line js v3_scan (view_of st) obj
        ≡ seen_as
            (is_text "session_info" (field "type" obj))
            (is_text "message" (field "type" obj))
            obj
            st
  unfolding scan_line
  scan_line-seen obj st =
      at (is_text "session_info" (field "type" obj)) (is_text "message" (field "type" obj))
    where
      named : ListView
      named = record (view_of st) { name = when_text (trim (or_else (text_field "name" obj) "")) }

      counted : ListView
      counted = record (view_of st) {
        message_count = st.message_count + 1;
        first_message = keep_first js st.first_message obj;
      }

      at :
          (names message : Bool)
          → (if names then named else if message then counted else view_of st)
            ≡ seen_as names message obj st
      at true message = refl
      at false true = refl
      at false false = refl

  decoded-view :
      (line : ℕ) (decoded : Option JsonFields) (st t : V3ParseState)
      → apply_decoded js line decoded st ≡ parsed t
      → scan_decoded js v3_scan (view_of st) decoded ≡ view_of t
  decoded-view line none st t h = ap view_of (parsed_injective h)
  decoded-view line (some obj) st t h = scan_line-seen obj st ∙ at (field "type" obj) h
    where
      at :
          (type : Option Json)
          → apply_typed js (as_text type) line obj st ≡ parsed t
          → seen_as (is_text "session_info" type) (is_text "message" type) obj st ≡ view_of t
      at (some (Json.text s)) applied =
          ap (λ b. seen_as b (str_eq s "message") obj st) (sym (line_kind-names_session s))
          ∙ ap (λ b. seen_as (names_session (line_kind s)) b obj st) (sym (line_kind-counts s))
          ∙ apply_kind-view (line_kind s) line obj st t applied
      at none applied = ap view_of (parsed_injective applied)
      at (some Json.null) applied = ap view_of (parsed_injective applied)
      at (some (Json.boolean b)) applied = ap view_of (parsed_injective applied)
      at (some (Json.number n)) applied = ap view_of (parsed_injective applied)
      at (some (Json.array items)) applied = ap view_of (parsed_injective applied)
      at (some (Json.object fields)) applied = ap view_of (parsed_injective applied)

  lines-view :
      (line : ℕ) (lines : List String) (st t : V3ParseState)
      → apply_lines js line lines st ≡ parsed t
      → scan_rest js v3_scan (view_of st) lines ≡ view_of t
  unfolding apply_lines scan_rest
  lines-view line [] st t h = ap view_of (parsed_injective h)
  lines-view line (text ∷ lines) st t h =
      let (next, applied, rest) =
        >>=-eq-parsed (apply_decoded js line (parse_line js text) st) _ h in
      ap (λ view. scan_rest js v3_scan view lines)
        (decoded-view line (parse_line js text) st next applied)
      ∙ lines-view (suc line) lines next t rest

present-when_text : (s : String) → present (when_text s) ≡ when_text s
present-when_text s = at (is_empty_text s) refl
  where
    at :
        (b : Bool)
        → is_empty_text s ≡ b
        → present (if b then none else some s) ≡ (if b then none else some s)
    at true h = refl
    at false h = rw h refl

module _ (js : Platform) where
  step-named :
      (st t : V3ParseState) → LineStep st t → present st.name ≡ st.name → present t.name ≡ t.name
  unfolding write_name write_label write_line
  step-named st t skips h = h
  step-named st t (names id parent text) h = present-when_text text
  step-named st t (labels id parent target text) h = h
  step-named st t (registers obj e true first seq new parent) h = h
  step-named st t (registers obj e false first seq new parent) h = h

  -- The name of a parse is absent or not empty.
  lines-named :
      (line : ℕ) (lines : List String) (st t : V3ParseState)
      → present st.name ≡ st.name
      → apply_lines js line lines st ≡ parsed t
      → present t.name ≡ t.name
  unfolding apply_lines
  lines-named line [] st t named h =
      subst (λ (x : V3ParseState). present x.name ≡ x.name) (parsed_injective h) named
  lines-named line (text ∷ lines) st t named h =
      let (next, applied, rest) =
        >>=-eq-parsed (apply_decoded js line (parse_line js text) st) _ h in
      let step = apply_decoded-LineStep js line (parse_line js text) st next applied in
      lines-named (suc line) lines next t (step-named st next step named) rest

first-shown :
    (first : String)
    → (if is_empty_text first then "(no messages)" else first)
      ≡ or_else (present (some first)) "(no messages)"
first-shown first = at (is_empty_text first)
  where
    at :
        (b : Bool)
        → (if b then "(no messages)" else first)
          ≡ or_else (if b then none else some first) "(no messages)"
    at true = refl
    at false = refl

-- Where a file is parsed, its list view has the same identifier, directory, creation time and name, and
-- the same first text, or "(no messages)" where the parse has none.
pub scan_v3_lines-parse_v3 :
    (js : Platform) (lines : List String) (read : PiSessionData) (header : SessionHeader)
    → parse_v3 js lines ≡ parsed read
    → parse_v3_header js (or_else (header_line js lines) JsonFields.blank) ≡ some header
    → ((scan_v3_lines js lines header).id ≡ read.id)
      × ((scan_v3_lines js lines header).cwd ≡ read.cwd)
      × ((scan_v3_lines js lines header).created_at ≡ read.created_at)
      × ((scan_v3_lines js lines header).name ≡ read.name)
      × ((scan_v3_lines js lines header).first_message ≡ or_else read.first_message "(no messages)")
unfolding scan_v3_lines scan_lines session_data
scan_v3_lines-parse_v3 js lines read header h found =
    let (header', st, path, found', applied, made) = parse_v3-eq-parsed js lines read h in
    let view = lines-view js 2 (behind_header lines) no_lines st applied in
    let same : header' ≡ header = some_injective (sym found' ∙ found) in
    let own : session_data js header st path ≡ read =
      ap (λ x. session_data js x st path) (sym same) ∙ made in
    (
      ap (λ (d : PiSessionData). d.id) own,
      ap (λ (d : PiSessionData). d.cwd) own,
      ap (λ (d : PiSessionData). d.created_at) own,
      ap (λ (v : ListView). v.name) view
          ∙ sym (lines-named js 2 (behind_header lines) no_lines st refl applied)
          ∙ ap (λ (d : PiSessionData). d.name) own,
      ap
            (λ (v : ListView).
              if is_empty_text v.first_message then "(no messages)" else v.first_message)
            view
          ∙ first-shown st.first_message
          ∙ ap (λ (d : PiSessionData). or_else d.first_message "(no messages)") own,
    )
  where
    some_injective : {a b : SessionHeader} → some a ≡ some b → a ≡ b
    some_injective h = cc
