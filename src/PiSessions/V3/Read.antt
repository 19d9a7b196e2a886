-- ===== src/PiSessions/V3/Read.antt =====
-- pi-sessions/v3.ts: the dispatch over the lines of a file, and `parseV3`.
use saku.Base.{
  ℕ, suc, ◌+◌, String, Bool, false, Option, none, some, List, [], ◌∷◌, ◌++◌, reverse, or_else,
  if◌then◌else◌,
}
use saku.Base.Map.{put, has}
use saku.Base.Text.{trim}
use saku.Session.Types.{EntryType, Entry, SessionMutation}
use saku.Session.State.{is_message}
use saku.PiSessions.Json.{Json, JsonItems, JsonFields, Platform, field, text_field, without_field}
use saku.PiSessions.Common.{
  SessionHeader, ScannedSession, SessionLineScan, is_text, when_text, is_message_content,
  parse_line, to_epoch_ms, parse_v3_header, keep_first, scan_lines, behind_header,
}
use saku.PiSessions.V3.{
  Fault, not_a_session, Parse, thrown, parsed, ◌>>=◌, ◌>>◌, refuse, require, V3Entry, V3Mutation,
  V3ParseState, no_lines, LineKind, line_kind, entry_id, parent_field, entry_parent, write_line,
  count_line,
}
use saku.PiSessions.V3.Tails.{path_from_leaf, synthesize}

-- `session_info`: a name fact, with the identifiers of the fact and its parent.
unfoldable pub write_name : V3ParseState → String → String → String → V3ParseState
write_name st id parent text = record st {
  fact_parent = put id parent st.fact_parent;
  seq = st.seq + 1;
  mutations = st.mutations ++ V3Mutation.name (st.seq + 1) text ∷ [];
  name = when_text text;
}

unfoldable pub write_label : V3ParseState → String → String → String → Option String → V3ParseState
write_label st id parent target text = record st {
  fact_parent = put id parent st.fact_parent;
  seq = st.seq + 1;
  mutations = st.mutations ++ V3Mutation.label (st.seq + 1) target text ∷ [];
}

unfoldable pub apply_session_info : ℕ → JsonFields → V3ParseState → Parse V3ParseState
unfolding trim
apply_session_info line obj st = do
  id ← require (text_field "id" obj) line Fault.invalid_session_info
  parent ← require (text_field "parentId" obj) line Fault.invalid_session_info
  refuse (has id st.fact_parent) line (Fault.duplicate_id id)
  parsed (write_name st id parent (trim (or_else (text_field "name" obj) "")))

unfoldable pub apply_label : ℕ → JsonFields → V3ParseState → Parse V3ParseState
apply_label line obj st = do
  id ← require (text_field "id" obj) line Fault.invalid_label
  parent ← require (text_field "parentId" obj) line Fault.invalid_label
  target ← require (text_field "targetId" obj) line Fault.invalid_label
  refuse (has id st.fact_parent) line (Fault.duplicate_id id)
  parsed (write_label st id parent target (text_field "label" obj))

-- `const { type: _, id: _, parentId: _, timestamp: _, ...fields } = obj`; the entry has its own `seq`.
abbrev pub rest_of : JsonFields → JsonFields
rest_of obj = without_field "type" (
    without_field "id"
      (without_field "parentId" (without_field "timestamp" (without_field "seq" obj))))

abbrev pub with_details : Option Json → JsonFields
with_details none = JsonFields.blank
with_details (some details) = JsonFields.with_field "details" details JsonFields.blank

abbrev pub is_json_true : Option Json → Bool
is_json_true (some (Json.boolean b)) = b
is_json_true _ = false

abbrev pub content_or_empty : Option Json → Json
content_or_empty content =
    if is_message_content content
    then or_else content (Json.array JsonItems.empty)
    else Json.array JsonItems.empty

-- The role-custom message of a `custom_message` line, as the fields of a message entry.
unfoldable pub custom_message_of : JsonFields → ℕ → JsonFields
custom_message_of obj timestamp =
    JsonFields.with_field "message"
      (Json.object (
        JsonFields.with_field "content" (content_or_empty (field "content" obj)) (
          JsonFields.with_field "customType" (Json.text (or_else (text_field "customType" obj) ""))
            (JsonFields.with_field "display" (Json.boolean (is_json_true (field "display" obj))) (
              JsonFields.with_field "role" (Json.text "custom") (
                JsonFields.with_field "timestamp" (Json.number timestamp)
                  (with_details (field "details" obj))))))))
      JsonFields.blank

pub record PiSessionData : Type 0 where
  pub id : String
  pub cwd : String
  pub created_at : ℕ
  pub name : Option String
  pub first_message : Option String
  pub mutations : List SessionMutation

-- The lane that pins the last entry.
abbrev pub pin : ℕ → Option String → List V3Mutation
pin seq none = []
pin seq (some leaf) = V3Mutation.lane (suc seq) "main" (some leaf) ∷ []

-- `extras.name !== undefined && extras.name.length > 0`
abbrev pub present : Option String → Option String
present none = none
present (some text) = when_text text

abbrev pub custom_type_of : EntryType → JsonFields → Option String
custom_type_of EntryType.custom fields = text_field "customType" fields
custom_type_of _ fields = none

abbrev pub v3_scan : SessionLineScan
v3_scan = record {
  is_name = λ obj. is_text "session_info" (field "type" obj);
  name_of = λ obj. text_field "name" obj;
  is_message = λ obj. is_text "message" (field "type" obj);
}

module _ (js : Platform) where
  unfoldable pub register_entry :
      V3ParseState → JsonFields → ℕ → EntryType → (ℕ → JsonFields) → Parse V3ParseState
  unfolding to_epoch_ms
  register_entry st obj line type build = do
    id ← entry_id st line (text_field "id" obj)
    parent ← parent_field (field "parentId" obj) line
    resolved ← entry_parent st line parent
    parsed (
        write_line st obj (record {
          id = id;
          type = type;
          parent_id = resolved;
          seq = st.seq + 1;
          timestamp = to_epoch_ms js (field "timestamp" obj);
          fields = build (to_epoch_ms js (field "timestamp" obj));
        }))

  unfoldable pub apply_kind : LineKind → ℕ → JsonFields → V3ParseState → Parse V3ParseState
  unfolding apply_session_info apply_label register_entry keep_first custom_message_of
  apply_kind LineKind.session_info line obj st = apply_session_info line obj st
  apply_kind LineKind.label line obj st = apply_label line obj st
  apply_kind LineKind.custom_message line obj st =
      register_entry st obj line EntryType.message (custom_message_of obj)
  apply_kind (LineKind.entry type) line obj st = do
    next ← register_entry st obj line type (λ _. rest_of obj)
    parsed (count_line (is_message type) (keep_first js next.first_message obj) next)
  apply_kind LineKind.unknown line obj st = parsed st

  abbrev pub apply_typed : Option String → ℕ → JsonFields → V3ParseState → Parse V3ParseState
  apply_typed none line obj st = parsed st
  apply_typed (some type) line obj st = apply_kind (line_kind type) line obj st

  -- A line that is blank, malformed or without a type is skipped.
  abbrev pub apply_decoded : ℕ → Option JsonFields → V3ParseState → Parse V3ParseState
  apply_decoded line none st = parsed st
  apply_decoded line (some obj) st = apply_typed (text_field "type" obj) line obj st

  -- Both passes: the lines are decoded one by one, and decoding never throws.
  unfoldable pub apply_lines : ℕ → List String → V3ParseState → Parse V3ParseState
  unfolding apply_kind line_kind
  apply_lines line [] st = parsed st
  apply_lines line (text ∷ lines) st = do
    next ← apply_decoded line (parse_line js text) st
    apply_lines (suc line) lines next

  -- The entry as the session log has it.
  unfoldable pub entry_of : V3Entry → Entry
  entry_of e = record {
    id = e.id;
    type = e.type;
    custom_type = custom_type_of e.type e.fields;
    body = js.json_text e.fields;
    parent_id = e.parent_id;
    seq = e.seq;
    timestamp = e.timestamp;
  }

  unfoldable pub mutation_of : V3Mutation → SessionMutation
  mutation_of (V3Mutation.entry e) = SessionMutation.entry none (entry_of e)
  mutation_of (V3Mutation.lane seq lane leaf) = SessionMutation.lane seq lane leaf
  mutation_of (V3Mutation.name seq name) = SessionMutation.name seq name
  mutation_of (V3Mutation.label seq target label) = SessionMutation.label seq target label

  unfoldable pub mutations_of : List V3Mutation → List SessionMutation
  unfolding mutation_of
  mutations_of [] = []
  mutations_of (m ∷ ms) = mutation_of m ∷ mutations_of ms

  unfoldable pub session_data : SessionHeader → V3ParseState → List V3Entry → PiSessionData
  unfolding synthesize mutations_of
  session_data header st path = record {
    id = header.id;
    cwd = header.cwd;
    created_at = header.created_at;
    name = present st.name;
    first_message = present (some st.first_message);
    mutations =
        mutations_of
          (synthesize st.raw_line_by_id (reverse path) st.mutations ++ pin st.seq st.last_entry_id);
  }

  abbrev pub header_line : List String → Option JsonFields
  header_line [] = parse_line js ""
  header_line (line ∷ lines) = parse_line js line

  unfoldable pub parse_v3 : List String → Parse PiSessionData
  unfolding apply_lines parse_v3_header path_from_leaf
  parse_v3 lines = elim (parse_v3_header js (or_else (header_line lines) JsonFields.blank)) [
    | none ↦ thrown not_a_session
    | some header ↦ do
      st ← apply_lines 2 (behind_header lines) no_lines
      path ← require (path_from_leaf st) 0 Fault.out_of_fuel
      parsed (session_data header st path)
  ]

  unfoldable pub scan_v3_lines : List String → SessionHeader → ScannedSession
  scan_v3_lines lines header = scan_lines js lines v3_scan header
