-- ===== src/Session/State.antt =====
-- session-state.ts: the class `SessionState`. A method that writes returns the new state.
use saku.Base.{
  ℕ, ◌+◌, String, Bool, true, false, not, Option, none, some, List, [], ◌∷◌, ◌++◌, ◌==◌,
  if◌then◌else◌, or_else, opt_eq, mem?,
}
use saku.Base.Map.{Map, get, put, remove, has}
use saku.Session.Types.{
  EntryType, Entry, RecordBody, LaneRecord, SessionMutation, LogItem, SessionStats, SessionError,
  guard, Result, ok, err, ◌>>=◌, ◌>>◌,
}

pub record SessionState : Type 0 where
  pub sequence : ℕ
  pub used_ids : List String
  pub entries : List Entry
  pub entries_by_id : Map Entry
  pub records : List LaneRecord
  pub open_operations_by_lane : Map (Map LaneRecord)
  pub lanes : Map (Option String)
  pub log : List LogItem
  pub stats : SessionStats
  pub name : Option String
  pub labels : Map String

abbrev pub no_stats : SessionStats
no_stats = record {
  cached_tokens = 0;
  uncached_tokens = 0;
  total_tokens = 0;
  cost_total = 0;
  message_count = 0;
}

-- `new SessionState()`
unfoldable pub initial : SessionState
initial = record {
  sequence = 0;
  used_ids = [];
  entries = [];
  entries_by_id = [];
  records = [];
  open_operations_by_lane = [];
  lanes = ("main", none) ∷ [];
  log = [];
  stats = no_stats;
  name = none;
  labels = [];
}

abbrev pub mutation_seq_of : SessionMutation → ℕ
mutation_seq_of (SessionMutation.entry lane e) = e.seq
mutation_seq_of (SessionMutation.lane_record r) = r.seq
mutation_seq_of (SessionMutation.lane seq lane leaf) = seq
mutation_seq_of (SessionMutation.name seq name) = seq
mutation_seq_of (SessionMutation.label seq target label) = seq

-- A null target, or an entry that is there.
abbrev pub target_exists : SessionState → Option String → Bool
target_exists s none = true
target_exists s (some id) = has id s.entries_by_id

unfoldable pub next_sequence : SessionState → ℕ
next_sequence s = s.sequence + 1

unfoldable pub require_lane : SessionState → String → Result (Option String)
require_lane s lane = elim (get lane s.lanes) [
  | none ↦ err SessionError.invalid_lane
  | some leaf ↦ ok leaf
]

unfoldable pub validate_new_lane : SessionState → String → Result (Unit {0})
validate_new_lane s lane = guard (not (has lane s.lanes)) SessionError.already_exists

unfoldable pub validate_target : SessionState → Option String → Result (Unit {0})
validate_target s target = guard (target_exists s target) SessionError.not_found

unfoldable pub validate_unused_id : SessionState → String → Result (Unit {0})
validate_unused_id s id = guard (not (mem? id s.used_ids)) SessionError.already_exists

abbrev pub is_message : EntryType → Bool
is_message EntryType.message = true
is_message _ = false

-- The leaf check of the entry arm: the lane is there and the entry hangs under its leaf.
abbrev pub chains : Map (Option String) → Option String → Option String → Bool
chains lanes none parent = true
chains lanes (some lane) parent = elim (get lane lanes) [
  | none ↦ false
  | some leaf ↦ opt_eq parent leaf
]

abbrev pub move_leaf : Option String → String → Map (Option String) → Map (Option String)
move_leaf none id lanes = lanes
move_leaf (some lane) id lanes = put lane (some id) lanes

abbrev pub count_message : EntryType → SessionStats → SessionStats
count_message type stats =
    if is_message type then record stats { message_count = stats.message_count + 1 } else stats

-- The writes of the entry arm.
unfoldable pub write_entry : SessionState → Option String → Entry → SessionState
write_entry s lane e = record s {
  sequence = e.seq;
  used_ids = e.id ∷ s.used_ids;
  entries = s.entries ++ e ∷ [];
  entries_by_id = put e.id e s.entries_by_id;
  lanes = move_leaf lane e.id s.lanes;
  log = s.log ++ LogItem.entry e ∷ [];
  stats = count_message e.type s.stats;
}

unfoldable pub apply_entry : SessionState → Option String → Entry → Result SessionState
apply_entry s lane e = do
  guard (not (mem? e.id s.used_ids)) SessionError.invalid_entry
  guard (chains s.lanes lane e.parent_id) SessionError.invalid_entry
  guard (target_exists s e.parent_id) SessionError.invalid_entry
  ok (write_entry s lane e)

-- `openOperations.set` on the lane's map, created where it is missing, and `delete`.
abbrev pub track_operation : LaneRecord → RecordBody → Map (Map LaneRecord) → Map (Map LaneRecord)
track_operation r (RecordBody.operation_started kind) open_operations =
    put r.lane (put r.id r (or_else (get r.lane open_operations) [])) open_operations
track_operation r (RecordBody.operation_finished run_id) open_operations =
    elim (get r.lane open_operations) [
      | none ↦ open_operations
      | some by_id ↦ put r.lane (remove run_id by_id) open_operations
    ]
track_operation r body open_operations = open_operations

abbrev pub add_usage : RecordBody → SessionStats → SessionStats
add_usage (RecordBody.usage u run_id) stats = record stats {
  cached_tokens = stats.cached_tokens + u.cache_read;
  uncached_tokens = stats.uncached_tokens + (u.input + u.cache_write);
  total_tokens = stats.total_tokens + u.total_tokens;
  cost_total = stats.cost_total + u.cost_total;
}
add_usage body stats = stats

unfoldable pub write_record : SessionState → LaneRecord → SessionState
write_record s r = record s {
  sequence = r.seq;
  used_ids = r.id ∷ s.used_ids;
  records = s.records ++ r ∷ [];
  open_operations_by_lane = track_operation r r.body s.open_operations_by_lane;
  log = s.log ++ LogItem.lane_record r ∷ [];
  stats = add_usage r.body s.stats;
}

unfoldable pub apply_record : SessionState → LaneRecord → Result SessionState
apply_record s r = do
  guard (has r.lane s.lanes) SessionError.invalid_entry
  guard (not (mem? r.id s.used_ids)) SessionError.invalid_entry
  ok (write_record s r)

unfoldable pub write_lane : SessionState → ℕ → String → Option String → SessionState
write_lane s seq lane leaf = record s {
  sequence = seq;
  lanes = put lane leaf s.lanes;
  log = s.log ++ LogItem.lane seq lane leaf ∷ [];
}

unfoldable pub apply_lane : SessionState → ℕ → String → Option String → Result SessionState
apply_lane s seq lane leaf = do
  guard (target_exists s leaf) SessionError.invalid_entry
  ok (write_lane s seq lane leaf)

unfoldable pub write_name : SessionState → ℕ → String → SessionState
write_name s seq name = record s {
  sequence = seq;
  name = some name;
  log = s.log ++ LogItem.name seq name ∷ [];
}

abbrev pub set_label : String → Option String → Map String → Map String
set_label target none labels = remove target labels
set_label target (some text) labels = put target text labels

unfoldable pub write_label : SessionState → ℕ → String → Option String → SessionState
write_label s seq target label = record s {
  sequence = seq;
  labels = set_label target label s.labels;
  log = s.log ++ LogItem.label seq target label ∷ [];
}

unfoldable pub apply_label : SessionState → ℕ → String → Option String → Result SessionState
apply_label s seq target label = do
  guard (has target s.entries_by_id) SessionError.invalid_entry
  ok (write_label s seq target label)

abbrev pub apply_kind : SessionState → SessionMutation → Result SessionState
apply_kind s (SessionMutation.entry lane e) = apply_entry s lane e
apply_kind s (SessionMutation.lane_record r) = apply_record s r
apply_kind s (SessionMutation.lane seq lane leaf) = apply_lane s seq lane leaf
apply_kind s (SessionMutation.name seq name) = ok (write_name s seq name)
apply_kind s (SessionMutation.label seq target label) = apply_label s seq target label

unfoldable pub apply_mutation : SessionState → SessionMutation → Result SessionState
apply_mutation s change = do
  guard (mutation_seq_of change == next_sequence s) SessionError.invalid_entry
  apply_kind s change

-- A log replayed from a state: the loop of `DoSessionStorage.load` and `applyMutations`.
unfoldable pub replay : SessionState → List SessionMutation → Result SessionState
replay s [] = ok s
replay s (change ∷ changes) = do next ← apply_mutation s change; replay next changes
