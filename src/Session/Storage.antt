-- ===== src/Session/Storage.antt =====
-- do-session.ts: the class `DoSessionStorage`, a session's log on the key-value store and the state
-- in memory. The keys under `session/<id>/` stand as a record: `meta`, and `log/<seq>` by number,
-- in the order in which the backend lists them. Writes run one at a time (the semaphore), so an
-- operation is one function; it returns the storage that it leaves behind, also where it fails.
pub mod Recovery
pub mod Operations
pub mod History
pub mod OneOpen
pub mod Loading
use saku.Base.{
  ℕ, ◌+◌, String, Bool, true, false, not, ◌&&◌, Option, none, some, List, [], ◌∷◌, ◌==◌, leb,
  if◌then◌else◌, is_some, str_eq,
}
use saku.Base.Sort.{insert_by, sort_by}
use saku.Session.Types.{
  EntryType, Entry, RecordBody, LaneRecord, SessionMutation, SessionError, guard, Result, ok, err,
  ◌>>=◌, ◌>>◌,
}
use saku.Session.State.{
  SessionState, initial, next_sequence, require_lane, validate_new_lane, validate_target,
  validate_unused_id, mutation_seq_of, apply_mutation,
}
use saku.Session.Query.{find_open_operations}

pub record DoSessionMetadata : Type 0 where
  pub id : String
  pub created_at : ℕ
  pub cwd : String
  pub parent_session_id : Option String

-- The bytes under a key, by what the record layer makes of them: metadata as the code writes them, a
-- mutation as the code writes it, another JSON object, or no JSON (which reads as absent). The code
-- checks no more than the `kind` of a mutation and the `id` of metadata: an object with a kind of the
-- vocabulary, or with the session's id, that otherwise is not of the declared type is outside the model.
pub data Value : Type 0 where
  metadata : DoSessionMetadata → Value
  mutation : SessionMutation → Value
  other corrupt : Value

pub record SessionKeys : Type 0 where
  pub meta : Option Value
  pub log : List (ℕ × Value)

pub record DoSessionStorage : Type 0 where
  pub keys : SessionKeys
  pub metadata : DoSessionMetadata
  pub state : SessionState

-- `log.put(LogKey.create(seq), mutation)`: an existing key keeps its place.
unfoldable pub put_log : ℕ → Value → List (ℕ × Value) → List (ℕ × Value)
put_log n v [] = (n, v) ∷ []
put_log n v ((k, w) ∷ log) = if k == n then (n, v) ∷ log else (k, w) ∷ put_log n v log

-- `toSorted` by the number in the key.
unfoldable pub sort_log : List (ℕ × Value) → List (ℕ × Value)
unfolding sort_by insert_by
sort_log log = sort_by (λ (x : ℕ × Value). x.0) log

-- `jsonRecords.list` skips a corrupt record.
abbrev pub decodes : Value → Bool
decodes Value.corrupt = false
decodes _ = true

unfoldable pub list_log : List (ℕ × Value) → List (ℕ × Value)
list_log [] = []
list_log ((n, v) ∷ log) = let rest = list_log log in if decodes v then (n, v) ∷ rest else rest

unfoldable pub parse_mutation : Value → Result SessionMutation
parse_mutation (Value.mutation m) = ok m
parse_mutation _ = err SessionError.storage

unfoldable pub replay_log : SessionState → List (ℕ × Value) → Result SessionState
replay_log s [] = ok s
replay_log s ((n, v) ∷ log) = do
  m ← parse_mutation v
  next ← apply_mutation s m
  replay_log next log

-- `jsonRecords.get("meta")`: another object, or a mutation, has no matching id.
unfoldable pub read_meta : Option Value → String → Result DoSessionMetadata
read_meta none id = err SessionError.not_found
read_meta (some Value.corrupt) id = err SessionError.not_found
read_meta (some (Value.metadata m)) id =
    if str_eq m.id id then ok m else err SessionError.invalid_entry
read_meta (some _) id = err SessionError.invalid_entry

unfoldable pub create : DoSessionMetadata → SessionKeys → DoSessionStorage
create m keys = record {
  keys = record keys { meta = some (Value.metadata m) };
  metadata = m;
  state = initial;
}

unfoldable pub load : SessionKeys → String → Result DoSessionStorage
load keys id = do
  m ← read_meta keys.meta id
  state ← replay_log initial (sort_log (list_log keys.log))
  ok (record { keys = keys; metadata = m; state = state })

-- An operation's effect and its answer.
abbrev pub Effect : Type 0 → Type 0
Effect A = DoSessionStorage × Result A

unfoldable pub append_mutation : DoSessionStorage → SessionMutation → DoSessionStorage
append_mutation st m = record st {
  keys = record {
    meta = st.keys.meta;
    log = put_log (mutation_seq_of m) (Value.mutation m) st.keys.log;
  };
}

abbrev pub answer {ℓ} :
    {A : Type 0} {B : Type ℓ}
    → Result A
    → (A → DoSessionStorage × Result B)
    → DoSessionStorage
    → DoSessionStorage × Result B
answer (ok a) k st = k a
answer (err e) k st = (st, err e)

-- `yield* this.appendMutation(mutation); this.state.applyMutation(mutation)`: if the state refused
-- the mutation, the key would stay written.
unfoldable pub commit {ℓ} :
    {A : Type ℓ} → DoSessionStorage → SessionMutation → A → DoSessionStorage × Result A
unfolding append_mutation
commit st m result = elim (apply_mutation st.state m) [
  | ok state ↦ (record (append_mutation st m) { state = state }, ok result)
  | err e ↦ (append_mutation st m, err e)
]

unfoldable pub create_lane : DoSessionStorage → String → Option String → Effect (Unit {0})
create_lane st lane at =
    answer (validate_new_lane st.state lane >> validate_target st.state at)
      (λ _. commit st (SessionMutation.lane (next_sequence st.state) lane at) tt) st

unfoldable pub move_lane : DoSessionStorage → String → Option String → Effect (Unit {0})
move_lane st lane to =
    answer (require_lane st.state lane >> validate_target st.state to)
      (λ _. commit st (SessionMutation.lane (next_sequence st.state) lane to) tt) st

-- `ProvisionedEntry`: an entry without what the storage assigns.
pub record ProvisionedEntry : Type 0 where
  pub id : String
  pub type : EntryType
  pub custom_type : Option String
  pub body : String

unfoldable pub build_entry : ProvisionedEntry → Option String → ℕ → ℕ → Entry
build_entry new parent_id seq timestamp = record {
  id = new.id;
  type = new.type;
  custom_type = new.custom_type;
  body = new.body;
  parent_id = parent_id;
  seq = seq;
  timestamp = timestamp;
}

abbrev pub commit_entry : DoSessionStorage → String → Entry → Effect Entry
commit_entry st lane entry = commit st (SessionMutation.entry (some lane) entry) entry

-- What `appendEntry` checks first; it answers with the lane's leaf.
unfoldable pub validate_entry : SessionState → ProvisionedEntry → String → Result (Option String)
validate_entry s new lane = do leaf ← require_lane s lane; validate_unused_id s new.id; ok leaf

-- `now` is what the clock answers.
unfoldable pub append_entry : DoSessionStorage → ℕ → ProvisionedEntry → String → Effect Entry
unfolding build_entry
append_entry st now new lane =
    answer (validate_entry st.state new lane)
      (λ parent_id. commit_entry st lane (build_entry new parent_id (next_sequence st.state) now))
      st

-- `NewRecord`: a record without what the storage assigns.
pub record NewRecord : Type 0 where
  pub id : String
  pub lane : String
  pub body : RecordBody
  pub rest : String

unfoldable pub build_record : NewRecord → ℕ → ℕ → LaneRecord
build_record new seq timestamp = record {
  id = new.id;
  lane = new.lane;
  body = new.body;
  rest = new.rest;
  seq = seq;
  timestamp = timestamp;
}

abbrev pub starts_operation : RecordBody → Bool
starts_operation (RecordBody.operation_started kind) = true
starts_operation _ = false

abbrev pub is_empty {ℓ} : {A : Type ℓ} → List A → Bool
is_empty [] = true
is_empty (x ∷ xs) = false

-- A lane has one open operation at most.
unfoldable pub validate_operation : SessionState → NewRecord → Result (Unit {0})
validate_operation s new = do
  open_operations ← find_open_operations s new.lane (some 1)
  guard (not (starts_operation new.body && not (is_empty open_operations))) SessionError.storage

abbrev pub commit_record : DoSessionStorage → LaneRecord → Effect LaneRecord
commit_record st r = commit st (SessionMutation.lane_record r) r

-- What `appendRecord` checks first.
unfoldable pub validate_record : SessionState → NewRecord → Result (Unit {0})
validate_record s new = do
  require_lane s new.lane
  validate_unused_id s new.id
  validate_operation s new

unfoldable pub append_record : DoSessionStorage → ℕ → NewRecord → Effect LaneRecord
unfolding build_record
append_record st now new =
    answer (validate_record st.state new)
      (λ _. commit_record st (build_record new (next_sequence st.state) now)) st

unfoldable pub set_name : DoSessionStorage → String → Effect (Unit {0})
set_name st name = commit st (SessionMutation.name (next_sequence st.state) name) tt

unfoldable pub set_label : DoSessionStorage → String → Option String → Effect (Unit {0})
set_label st id label =
    answer (validate_target st.state (some id))
      (λ _. commit st (SessionMutation.label (next_sequence st.state) id label) tt) st

unfoldable pub apply_mutations : DoSessionStorage → List SessionMutation → Result DoSessionStorage
apply_mutations st [] = ok st
apply_mutations st (m ∷ ms) = do
  state ← apply_mutation st.state m
  apply_mutations (record st { state = state }) ms
