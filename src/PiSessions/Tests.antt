-- ===== src/PiSessions/Tests.antt =====
-- A file of a header, a message, a name, a label and a second message, and files that the reader lets
-- through.
use saku.Base.{
  ℕ, String, Option, none, some, true, false, List, [], ◌∷◌, ◌≡◌, refl, str_eq, if◌then◌else◌,
  or_else,
}
use saku.Base.Map.{Map, get, put}
use saku.Session.Types.{EntryType, Entry, SessionMutation, SessionError, ok, err}
use saku.Session.Replayable.{entries_of}
use saku.Session.State.{
  initial, apply_mutation, apply_entry, apply_label as apply_label_fact, write_entry, next_sequence,
}
use saku.Session.Repo.{put_all, keys_of, is_taken, is_session_id, import_session}
use saku.Session.Storage.{
  DoSessionStorage, put_log, load, read_meta, sort_log, list_log, replay_log, parse_mutation,
}
use saku.PiSessions.Json.{Json, JsonFields, Platform, field}
use saku.PiSessions.Common.{
  SessionHeader, parse_v3_header, parse_line, to_epoch_ms, first_message_of, text_content,
  keep_first,
}
use saku.PiSessions.V3.{
  PiSessionsError, parsed, thrown, Fault, resolve_parent, resolve_from, entry_id, entry_parent,
  write_line, line_kind, entry_type_of,
}
use saku.PiSessions.V3.Tails.{path_from_leaf, path_from, synthesize, with_tail}
use saku.PiSessions.V3.Read.{
  PiSessionData, parse_v3, scan_v3_lines, apply_lines, apply_kind, apply_session_info, apply_label,
  register_entry, write_name, write_label, session_data, mutations_of, mutation_of, entry_of,
  header_line,
}
use saku.PiSessions.V3.Chained.{last_id}
use saku.PiSessions.V3.Adopted.{parse_v3-imports}
use saku.PiSessions.V3.ListView.{scan_v3_lines-parse_v3}
use saku.PiSessions.V3.Resolve.{Behind, EndsAt, resolve_parent-total}

abbrev line : String → String → Json → JsonFields → JsonFields
line type id parent rest =
    JsonFields.with_field "type" (Json.text type)
      (JsonFields.with_field "id" (Json.text id) (JsonFields.with_field "parentId" parent rest))

abbrev said : String → JsonFields
said words =
    JsonFields.with_field "message"
      (Json.object (
        JsonFields.with_field "role" (Json.text "user")
          (JsonFields.with_field "content" (Json.text words) JsonFields.blank)))
      JsonFields.blank

abbrev named : String → JsonFields
named text = JsonFields.with_field "name" (Json.text text) JsonFields.blank

abbrev labelled : String → JsonFields
labelled target =
    JsonFields.with_field "targetId" (Json.text target)
      (JsonFields.with_field "label" (Json.text "here") JsonFields.blank)

-- The lines stand for their first letters.
abbrev decode : String → Option Json
decode s =
    if str_eq s "header"
    then some (
        Json.object (
          JsonFields.with_field "type" (Json.text "session")
            (JsonFields.with_field "id" (Json.text "s1") JsonFields.blank)))
    else if str_eq s "hello"
    then some (Json.object (line "message" "a" Json.null (said "hello")))
    else if str_eq s "title"
    then some (Json.object (line "session_info" "f" (Json.text "a") (named "tests")))
    else if str_eq s "label"
    then some (Json.object (line "label" "l" (Json.text "f") (labelled "a")))
    else if str_eq s "bye"
    then some (Json.object (line "message" "b" (Json.text "l") (said "bye")))
    else if str_eq s "astray"
    then some (Json.object (line "label" "l" (Json.text "a") (labelled "nowhere")))
    else none

abbrev js : Platform
js = record {
  json_parse = decode;
  json_text = λ fields. "text";
  date_parse = λ s. none;
  joined = λ v. "";
}

abbrev file : List String
file = "header" ∷ "hello" ∷ "" ∷ "title" ∷ "label" ∷ "bye" ∷ []

abbrev message : String → Option String → ℕ → Entry
message id parent seq = record {
  id = id;
  type = EntryType.message;
  custom_type = none;
  body = "text";
  parent_id = parent;
  seq = seq;
  timestamp = 0;
}

-- The second message hangs under the first: the facts between them are passed by.
abbrev read : PiSessionData
read = record {
  id = "s1";
  cwd = "";
  created_at = 0;
  name = some "tests";
  first_message = some "hello";
  mutations =
      SessionMutation.entry none (message "a" none 1)
      ∷ SessionMutation.name 2 "tests"
      ∷ SessionMutation.label 3 "a" (some "here")
      ∷ SessionMutation.entry none (message "b" (some "a") 4)
      ∷ SessionMutation.lane 5 "main" (some "b")
      ∷ [];
}

file-read : parse_v3 js file ≡ parsed read
unfolding parse_v3 parse_v3_header parse_line to_epoch_ms apply_lines apply_kind line_kind
    entry_type_of apply_session_info apply_label register_entry entry_id entry_parent resolve_parent
    resolve_from write_line write_name write_label keep_first first_message_of text_content
    path_from_leaf path_from session_data synthesize with_tail mutations_of mutation_of entry_of
    field get put
file-read = refl

s1-valid : is_session_id "s1" ≡ true
unfolding is_session_id
s1-valid = refl

s1-free : is_taken [] "s1" ≡ false
unfolding get
s1-free = refl

s1-unlogged : (keys_of [] "s1").log ≡ []
unfolding get
s1-unlogged = refl

parse_v3-imports_example :
    (st : DoSessionStorage) × ((import_session [] "s1" read.cwd read.created_at read.mutations).1
      ≡ ok st)
    × (st.state.entries ≡ entries_of read.mutations)
    × (get "main" st.state.lanes ≡ some (last_id st.state.entries))
parse_v3-imports_example =
    parse_v3-imports js file read [] "s1" file-read (tt, (tt, (refl, (tt, (tt, tt))))) s1-valid
      s1-free s1-unlogged

abbrev header : SessionHeader
header = record { id = "s1"; cwd = ""; created_at = 0 }

header-read : parse_v3_header js (or_else (header_line js file) JsonFields.blank) ≡ some header
unfolding parse_v3_header parse_line to_epoch_ms field
header-read = refl

scan_v3_lines-parse_v3_example :
    ((scan_v3_lines js file header).id ≡ read.id)
    × ((scan_v3_lines js file header).cwd ≡ read.cwd)
    × ((scan_v3_lines js file header).created_at ≡ read.created_at)
    × ((scan_v3_lines js file header).name ≡ read.name)
    × ((scan_v3_lines js file header).first_message ≡ or_else read.first_message "(no messages)")
scan_v3_lines-parse_v3_example = scan_v3_lines-parse_v3 js file read header file-read header-read

-- Two facts that name each other as parents.
abbrev cycle : Map String
cycle = ("f", "g") ∷ ("g", "f") ∷ []

resolve_parent-total_example :
    (top : String) × (resolve_parent cycle "f" ≡ some top) × Behind cycle "f" top × EndsAt cycle top
resolve_parent-total_example = resolve_parent-total cycle "f"

-- A label whose target is no entry is read, and the import of what was read fails.
abbrev astray : PiSessionData
astray = record {
  id = "s1";
  cwd = "";
  created_at = 0;
  name = none;
  first_message = some "hello";
  mutations =
      SessionMutation.entry none (message "a" none 1)
      ∷ SessionMutation.label 2 "nowhere" (some "here")
      ∷ SessionMutation.lane 3 "main" (some "a")
      ∷ [];
}

astray-read : parse_v3 js ("header" ∷ "hello" ∷ "astray" ∷ []) ≡ parsed astray
unfolding parse_v3 parse_v3_header parse_line to_epoch_ms apply_lines apply_kind line_kind
    entry_type_of apply_label register_entry entry_id entry_parent write_line write_label keep_first
    first_message_of text_content path_from_leaf path_from session_data synthesize with_tail
    mutations_of mutation_of entry_of field get put
astray-read = refl

astray-refused :
    (import_session [] "s1" astray.cwd astray.created_at astray.mutations).1
    ≡ err SessionError.invalid_entry
unfolding import_session is_session_id put_all put_log load read_meta sort_log list_log replay_log
    parse_mutation initial apply_mutation apply_entry apply_label_fact write_entry next_sequence get
    put
astray-refused = refl

-- An entry that chains to an identifier that no line has.
unknown-parent :
    parse_v3 js ("header" ∷ "bye" ∷ [])
    ≡ thrown (PiSessionsError.invalid 2 (Fault.unknown_parent "l"))
unfolding parse_v3 parse_v3_header parse_line to_epoch_ms apply_lines apply_kind line_kind
    entry_type_of register_entry entry_id entry_parent resolve_parent resolve_from field get put
unknown-parent = refl
