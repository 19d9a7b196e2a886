-- ===== src/Session/Fork.antt =====
-- session-state.ts: `createForkMutations`, the log that copies a session, or the branch of one entry,
-- into a new session.
pub mod Ordered
pub mod Numbered
pub mod Copied
pub mod Log
pub mod Replays
mod Tests
use saku.Base.{
  ℕ, suc, ◌+◌, String, true, false, Option, none, some, List, [], ◌∷◌, ◌++◌, length, or_else,
}
use saku.Base.Map.{Map, get}
use saku.Session.Types.{Entry, SessionMutation, SessionError, Result, ok, err, ◌>>=◌}
use saku.Session.State.{SessionState, require_lane, is_message}
use saku.Session.Query.{EntryQuery, Order, find_entries}
use saku.Session.Walk.{no_bounds, find_entries_on_branch}

pub data ForkPosition : Type 0 where
  at before : ForkPosition

-- pi's options: the whole tree, or the branch of an entry.
pub data ForkOptions : Type 0 where
  tree : ForkOptions
  branch : (entry_id : Option String) → (position : Option ForkPosition) → ForkOptions

abbrev pub oldest_first : EntryQuery
oldest_first = record {
  type = none;
  custom_type = none;
  cursor = none;
  order = some Order.oldest_first;
  limit = none;
}

abbrev pub default_position : Option String → ForkPosition
default_position none = ForkPosition.at
default_position (some id) = ForkPosition.before

abbrev pub target_at : ForkPosition → Entry → Option String
target_at ForkPosition.at e = some e.id
target_at ForkPosition.before e = e.parent_id

-- `options.entryId ?? this.requireLane("main")`
abbrev pub selected_entry : SessionState → Option String → Result (Option String)
selected_entry s none = require_lane s "main"
selected_entry s (some id) = ok (some id)

-- The target of the entry that was found, if it is a message.
abbrev pub message_target : ForkPosition → Option Entry → Result (Option String)
message_target position none = err SessionError.invalid_fork_target
message_target position (some e) = elim (is_message e.type) [
  | false ↦ err SessionError.invalid_fork_target
  | true ↦ ok (target_at position e)
]

abbrev pub target_of : SessionState → ForkPosition → Option String → Result (Option String)
target_of s position none = ok none
target_of s position (some id) = message_target position (get id s.entries_by_id)

unfoldable pub fork_target :
    SessionState → Option String → Option ForkPosition → Result (Option String)
fork_target s entry_id position = do
  selected ← selected_entry s entry_id
  target_of s (or_else position (default_position entry_id)) selected

abbrev pub branch_of : SessionState → Option String → Result (List Entry)
branch_of s none = ok []
branch_of s (some target) = find_entries_on_branch s oldest_first no_bounds target

-- The entries to copy and the lanes of the fork.
unfoldable pub fork_parts : SessionState → ForkOptions → Result (List Entry × Map (Option String))
fork_parts s ForkOptions.tree = do entries ← find_entries s oldest_first; ok (entries, s.lanes)
fork_parts s (ForkOptions.branch entry_id position) = do
  target ← fork_target s entry_id position
  entries ← branch_of s target
  ok (entries, ("main", target) ∷ [])

-- The three loops, each from the sequence number reached so far.
unfoldable pub copy_entries : ℕ → List Entry → List SessionMutation
copy_entries n [] = []
copy_entries n (e ∷ es) =
    SessionMutation.entry none (record e { seq = suc n }) ∷ copy_entries (suc n) es

unfoldable pub copy_lanes : ℕ → Map (Option String) → List SessionMutation
copy_lanes n [] = []
copy_lanes n ((lane, leaf) ∷ lanes) =
    SessionMutation.lane (suc n) lane leaf ∷ copy_lanes (suc n) lanes

abbrev pub copy_name : ℕ → Option String → List SessionMutation
copy_name n none = []
copy_name n (some name) = SessionMutation.name (suc n) name ∷ []

unfoldable pub copy_labels : ℕ → Map String → List Entry → List SessionMutation
copy_labels n labels [] = []
copy_labels n labels (e ∷ es) = elim (get e.id labels) [
  | none ↦ copy_labels n labels es
  | some text ↦ SessionMutation.label (suc n) e.id (some text) ∷ copy_labels (suc n) labels es
]

-- Lists of mutations one after the other, each numbered on from where the last one ended.
abbrev pub then_numbered :
    ℕ → List SessionMutation → (ℕ → List SessionMutation) → List SessionMutation
then_numbered n ms next = ms ++ next (n + length ms)

abbrev pub labels_from : SessionState → List Entry → ℕ → List SessionMutation
labels_from s copied n = copy_labels n s.labels copied

abbrev pub name_from : SessionState → List Entry → ℕ → List SessionMutation
name_from s copied n = then_numbered n (copy_name n s.name) (labels_from s copied)

abbrev pub lanes_from : SessionState → List Entry → Map (Option String) → ℕ → List SessionMutation
lanes_from s copied lanes n = then_numbered n (copy_lanes n lanes) (name_from s copied)

unfoldable pub fork_log : SessionState → List Entry → Map (Option String) → List SessionMutation
fork_log s copied lanes = then_numbered 0 (copy_entries 0 copied) (lanes_from s copied lanes)

unfoldable pub create_fork_mutations : SessionState → ForkOptions → Result (List SessionMutation)
create_fork_mutations s options = do parts ← fork_parts s options; ok (fork_log s parts.0 parts.1)
