-- ===== src/PiSessions/V3.antt =====
-- pi-sessions/v3.ts: a session file of version 3 read into the mutations of a session log. The two
-- loops that follow parents have fuel for every key of the map they follow and one more.
pub mod Tails
pub mod Read
pub mod Resolve
pub mod Steps
pub mod Chained
pub mod Mended
pub mod Log
pub mod Adopted
pub mod ListView
use saku.Base.{
  ℕ, zero, suc, ◌+◌, String, Bool, true, false, not, Option, none, some, List, [], ◌∷◌, ◌++◌,
  reverse, or_else, is_some, str_eq, mem?, ltb, length, if◌then◌else◌,
}
use saku.Base.Map.{Map, get, put, has}
use saku.Base.Text.{trim, is_empty_text}
use saku.Session.Types.{EntryType, Entry, SessionMutation}
use saku.Session.State.{is_message}
use saku.PiSessions.Json.{
  Json, JsonItems, JsonFields, Platform, field, as_text, text_field, without_field, set_field,
}
use saku.PiSessions.Common.{
  SessionHeader, ScannedSession, SessionLineScan, is_text, when_text, is_message_content,
  parse_line, to_epoch_ms, parse_v3_header, keep_first, scan_lines, behind_header,
}

-- What is wrong with a line; the words of the messages are left out. `out_of_fuel` is the model's own.
pub data Fault : Type 0 where
  no_id invalid_parent_id invalid_session_info invalid_label out_of_fuel : Fault
  duplicate_id unknown_parent : (id : String) → Fault

pub data PiSessionsError : Type 0 where
  not_a_session : PiSessionsError
  invalid : (line : ℕ) → Fault → PiSessionsError

-- A throw ends the parse: no state is left.
pub data Parse (A : Type 0) : Type 0 where
  thrown : PiSessionsError → Parse A
  parsed : A → Parse A

infixl 5 ◌>>=◌ ◌>>◌
abbrev pub ◌>>=◌ : {A B : Type 0} → Parse A → (A → Parse B) → Parse B
thrown e >>= rest = thrown e
parsed a >>= rest = rest a

abbrev pub ◌>>◌ : {A B : Type 0} → Parse A → Parse B → Parse B
step >> rest = step >>= λ _. rest

-- `if (test) throw invalid(path, line, …)`
abbrev pub refuse : Bool → ℕ → Fault → Parse (Unit {0})
refuse true line fault = thrown (invalid line fault)
refuse false line fault = parsed tt

-- The value, if it is there.
abbrev pub require : {A : Type 0} → Option A → ℕ → Fault → Parse A
require none line fault = thrown (invalid line fault)
require (some a) line fault = parsed a

-- An entry as the parse builds it; `fields` is what rides along.
pub record V3Entry : Type 0 where
  pub id : String
  pub type : EntryType
  pub parent_id : Option String
  pub seq : ℕ
  pub timestamp : ℕ
  pub fields : JsonFields

pub data V3Mutation : Type 0 where
  entry : V3Entry → V3Mutation
  lane : (seq : ℕ) → (lane : String) → (leaf_id : Option String) → V3Mutation
  name : (seq : ℕ) → (name : String) → V3Mutation
  label : (seq : ℕ) → (target_id : String) → (label : Option String) → V3Mutation

-- `entryOrder` has the entries of `mutations`, in the same order, and is left out.
pub record V3ParseState : Type 0 where
  pub entries_by_id : Map V3Entry
  pub fact_parent : Map String
  pub first_message : String
  pub last_entry_id : Option String
  pub message_count : ℕ
  pub mutations : List V3Mutation
  pub name : Option String
  pub raw_line_by_id : Map JsonFields
  pub seq : ℕ

abbrev pub no_lines : V3ParseState
no_lines = record {
  entries_by_id = [];
  fact_parent = [];
  first_message = "";
  last_entry_id = none;
  message_count = 0;
  mutations = [];
  name = none;
  raw_line_by_id = [];
  seq = 0;
}

-- What a line's type says of it.
pub data LineKind : Type 0 where
  session_info label custom_message unknown : LineKind
  entry : EntryType → LineKind

-- `V3_ENTRY_TYPES`
unfoldable pub entry_type_of : String → Option EntryType
entry_type_of type =
    if str_eq type "message"
    then some EntryType.message
    else if str_eq type "model_change"
    then some EntryType.model_change
    else if str_eq type "thinking_level_change"
    then some EntryType.thinking_level_change
    else if str_eq type "active_tools_change"
    then some EntryType.active_tools_change
    else if str_eq type "branch_summary"
    then some EntryType.branch_summary
    else if str_eq type "compaction"
    then some EntryType.compaction
    else if str_eq type "custom"
    then some EntryType.custom
    else none

abbrev pub entry_kind : Option EntryType → LineKind
entry_kind none = LineKind.unknown
entry_kind (some type) = LineKind.entry type

unfoldable pub line_kind : String → LineKind
unfolding entry_type_of
line_kind type =
    if str_eq type "session_info"
    then LineKind.session_info
    else if str_eq type "label"
    then LineKind.label
    else if str_eq type "custom_message"
    then LineKind.custom_message
    else entry_kind (entry_type_of type)

-- The `while` loop of `resolveParent`: a fact that was not visited yet is passed by.
unfoldable pub resolve_from : Map String → ℕ → List String → String → Option String
resolve_from facts zero visited current = none
resolve_from facts (suc fuel) visited current = elim (mem? current visited) [
  | true ↦ some current
  | false ↦ elim (get current facts) [
    | none ↦ some current
    | some parent ↦ resolve_from facts fuel (current ∷ visited) parent
  ]
]

unfoldable pub resolve_parent : Map String → String → Option String
resolve_parent facts id = resolve_from facts (suc (length facts)) [] id

-- A fresh identifier that is not empty.
unfoldable pub entry_id : V3ParseState → ℕ → Option String → Parse String
entry_id st line found = do
  id ← require found line Fault.no_id
  refuse (is_empty_text id) line Fault.no_id
  refuse (has id st.entries_by_id) line (Fault.duplicate_id id)
  parsed id

-- `parentId`: null or a text.
abbrev pub parent_field : Option Json → ℕ → Parse (Option String)
parent_field (some Json.null) line = parsed none
parent_field (some (Json.text id)) line = parsed (some id)
parent_field _ line = thrown (invalid line Fault.invalid_parent_id)

-- The parent behind the facts, which has to be an entry.
unfoldable pub entry_parent : V3ParseState → ℕ → Option String → Parse (Option String)
entry_parent st line none = parsed none
entry_parent st line (some id) = do
  resolved ← require (resolve_parent st.fact_parent id) line Fault.out_of_fuel
  refuse (not (has resolved st.entries_by_id)) line (Fault.unknown_parent resolved)
  parsed (some resolved)

-- The writes of `registerEntry`.
unfoldable pub write_line : V3ParseState → JsonFields → V3Entry → V3ParseState
write_line st obj e = record st {
  seq = e.seq;
  mutations = st.mutations ++ V3Mutation.entry e ∷ [];
  entries_by_id = put e.id e st.entries_by_id;
  raw_line_by_id = put e.id obj st.raw_line_by_id;
  last_entry_id = some e.id;
}

-- `messageCount` and `firstMessage` of a message line.
abbrev pub count_line : Bool → String → V3ParseState → V3ParseState
count_line false first st = st
count_line true first st = record st { message_count = st.message_count + 1; first_message = first }
