-- ===== src/Session/Storage/History.antt =====
-- A session over any history of operations: what is loaded is what was in memory.
use saku.Base.{ℕ, String, Option, none, List, [], ◌∷◌, ◌≡◌, refl}
use saku.Session.Types.{ok}
use saku.Session.State.{initial, replay}
use saku.Session.Storage.{
  DoSessionMetadata, Value, SessionKeys, DoSessionStorage, create, load, ProvisionedEntry,
  NewRecord, create_lane, move_lane, append_entry, append_record, set_name, set_label,
}
use saku.Session.Storage.Recovery.{IsSynced, Shuffle, load_recovers}
use saku.Session.Storage.Operations.{
  create_lane-IsSynced, move_lane-IsSynced, append_entry-IsSynced, append_record-IsSynced,
  set_name-IsSynced, set_label-IsSynced,
}

-- The operations that write, as data, and what they leave behind one after the other.
pub data Operation : Type 0 where
  creates_lane : String → Option String → Operation
  moves_lane : String → Option String → Operation
  appends_entry : ℕ → ProvisionedEntry → String → Operation
  appends_record : ℕ → NewRecord → Operation
  names_session : String → Operation
  labels_entry : String → Option String → Operation

unfoldable pub perform : DoSessionStorage → Operation → DoSessionStorage
perform st (Operation.creates_lane lane at) = (create_lane st lane at).0
perform st (Operation.moves_lane lane to) = (move_lane st lane to).0
perform st (Operation.appends_entry now new lane) = (append_entry st now new lane).0
perform st (Operation.appends_record now new) = (append_record st now new).0
perform st (Operation.names_session text) = (set_name st text).0
perform st (Operation.labels_entry id label) = (set_label st id label).0

unfoldable pub perform_all : DoSessionStorage → List Operation → DoSessionStorage
perform_all st [] = st
perform_all st (op ∷ ops) = perform_all (perform st op) ops

abbrev pub no_keys : SessionKeys
no_keys = record { meta = none; log = [] }

pub create-IsSynced : (m : DoSessionMetadata) → IsSynced (create m no_keys)
unfolding create initial replay
create-IsSynced m = record {
  history = [];
  on_disk = refl;
  in_memory = refl;
  counted = refl;
  meta_kept = refl;
}

-- Each operation, refused or not, leaves the log on disk and the state in memory in step.
pub perform-IsSynced :
    (st : DoSessionStorage) (op : Operation) → IsSynced st → IsSynced (perform st op)
unfolding perform
perform-IsSynced st (Operation.creates_lane lane at) y = create_lane-IsSynced st y lane at
perform-IsSynced st (Operation.moves_lane lane to) y = move_lane-IsSynced st y lane to
perform-IsSynced st (Operation.appends_entry now new lane) y =
    append_entry-IsSynced st y now new lane
perform-IsSynced st (Operation.appends_record now new) y = append_record-IsSynced st y now new
perform-IsSynced st (Operation.names_session text) y = set_name-IsSynced st y text
perform-IsSynced st (Operation.labels_entry id label) y = set_label-IsSynced st y id label

pub perform_all-IsSynced :
    (st : DoSessionStorage) (ops : List Operation) → IsSynced st → IsSynced (perform_all st ops)
unfolding perform_all
perform_all-IsSynced st [] y = y
perform_all-IsSynced st (op ∷ ops) y =
    perform_all-IsSynced (perform st op) ops (perform-IsSynced st op y)

-- The state of a session that was created afresh and then used by any operations, those refused
-- included.
abbrev pub used : DoSessionMetadata → List Operation → DoSessionStorage
used m ops = perform_all (create m no_keys) ops

pub used-IsSynced : (m : DoSessionMetadata) (ops : List Operation) → IsSynced (used m ops)
used-IsSynced m ops = perform_all-IsSynced (create m no_keys) ops (create-IsSynced m)

-- A session is created, and operations run on it, those that are refused included. Then loading it,
-- from its keys in whatever order the backend lists them, succeeds and gives exactly the metadata and
-- the state that were in memory.
pub load-perform_all :
    (m : DoSessionMetadata) (ops : List Operation) (log : List (ℕ × Value))
    → Shuffle log (used m ops).keys.log
    → load (record { meta = (used m ops).keys.meta; log = log }) (used m ops).metadata.id
      ≡ ok (record (used m ops) { keys = record { meta = (used m ops).keys.meta; log = log } })
load-perform_all m ops log shuffled = load_recovers (used m ops) log (used-IsSynced m ops) shuffled
