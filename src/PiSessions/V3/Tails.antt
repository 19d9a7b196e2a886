-- ===== src/PiSessions/V3/Tails.antt =====
-- pi-sessions/v3.ts: what a compaction keeps, read from the path of the last entry.
use saku.Base.{
  ℕ, zero, suc, ◌+◌, String, Bool, true, false, Option, none, some, List, [], ◌∷◌, or_else, str_eq,
  mem?, ltb, length, if◌then◌else◌,
}
use saku.Base.Map.{Map, get}
use saku.Session.Types.{EntryType}
use saku.Session.State.{is_message}
use saku.PiSessions.Json.{Json, JsonItems, JsonFields, field, text_field, set_field}
use saku.PiSessions.V3.{V3Entry, V3Mutation, V3ParseState}

-- The `while` loop of `pathFromLeaf`. A parent that is missing or was visited ends it.
unfoldable pub path_from : Map V3Entry → ℕ → List String → Option String → Option (List V3Entry)
path_from by_id zero visited current = none
path_from by_id (suc fuel) visited none = some []
path_from by_id (suc fuel) visited (some id) = elim (mem? id visited) [
  | true ↦ some []
  | false ↦ elim (get id by_id) [
    | none ↦ some []
    | some e ↦ elim (path_from by_id fuel (id ∷ visited) e.parent_id) [
      | none ↦ none
      | some path ↦ some (e ∷ path)
    ]
  ]
]

unfoldable pub path_from_leaf : V3ParseState → Option (List V3Entry)
path_from_leaf st =
    path_from st.entries_by_id (suc (suc (length st.entries_by_id))) [] st.last_entry_id

-- `findIndex`, `none` for -1
unfoldable pub find_index : String → List V3Entry → Option ℕ
find_index id [] = none
find_index id (e ∷ es) =
    let rest = find_index id es in
    if str_eq e.id id then some 0 else elim rest [ none ↦ none | some n ↦ some (suc n) ]

abbrev pub kept_from : Option ℕ → Option ℕ → ℕ
kept_from none kept = 0
kept_from (some compaction) none = compaction + 1
kept_from (some compaction) (some kept) = if ltb kept compaction then kept else compaction + 1

-- `slice(n)`
abbrev pub drop : ℕ → List V3Entry → List V3Entry
drop zero es = es
drop (suc n) [] = []
drop (suc n) (e ∷ es) = drop n es

-- The messages of the message entries; one that is missing is written as null.
abbrev pub messages_of : List V3Entry → JsonItems
messages_of [] = JsonItems.empty
messages_of (e ∷ es) =
    let rest = messages_of es in
    if is_message e.type
    then JsonItems.item (or_else (field "message" e.fields) Json.null) rest
    else rest

abbrev pub first_kept : Option JsonFields → Option String
first_kept none = none
first_kept (some line) = text_field "firstKeptEntryId" line

abbrev pub kept_index : Option String → List V3Entry → Option ℕ
kept_index none path = none
kept_index (some id) path = find_index id path

unfoldable pub retained_tail : Map JsonFields → List V3Entry → V3Entry → JsonItems
unfolding find_index
retained_tail raw path e =
    messages_of
      (drop (kept_from (find_index e.id path) (kept_index (first_kept (get e.id raw)) path)) path)

abbrev pub is_compaction : EntryType → Bool
is_compaction EntryType.compaction = true
is_compaction _ = false

unfoldable pub with_tail : Map JsonFields → List V3Entry → V3Entry → V3Entry
unfolding retained_tail
with_tail raw path e =
    if is_compaction e.type
    then record e {
      fields = set_field "retainedTail" (Json.array (retained_tail raw path e)) e.fields;
    }
    else e

-- The loop over the entries, which the mutations share.
unfoldable pub synthesize : Map JsonFields → List V3Entry → List V3Mutation → List V3Mutation
unfolding with_tail
synthesize raw path [] = []
synthesize raw path (V3Mutation.entry e ∷ ms) =
    V3Mutation.entry (with_tail raw path e) ∷ synthesize raw path ms
synthesize raw path (m ∷ ms) = m ∷ synthesize raw path ms
