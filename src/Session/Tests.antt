-- ===== src/Session/Tests.antt =====
-- A session at concrete inputs.
use saku.Base.{none, some, List, [], ◌∷◌, ◌≡◌, refl, filter}
use saku.Base.Map.{get, put}
use saku.Session.Types.{EntryType, Entry, SessionMutation, ok, err, SessionError}
use saku.Session.State.{
  SessionState, initial, write_entry, apply_entry, apply_mutation, replay, next_sequence,
}
use saku.Session.Invariant.{IsValid, initial-IsValid}
use saku.Session.Invariant.Replay.{apply_mutation-IsValid, replay-IsValid}
use saku.Session.Query.{EntryQuery, matches_entry_query, limited}
use saku.Session.Walk.{no_bounds, find_entries_on_branch, walk_to_root}
use saku.Session.Walk.Total.{PathToRoot, cut_at, visits, walk_to_root_path}
use saku.Session.Walk.Branch.{branch_order, find_entries_on_branch-eq-filter}
use saku.Session.Storage.{Value}
use saku.Session.Storage.{DoSessionMetadata, load}
use saku.Session.Storage.Recovery.{Shuffle}
use saku.Session.Storage.History.{Operation, used, load-perform_all}
use saku.Base.{true, false}
use saku.Session.Storage.{
  SessionKeys, DoSessionStorage, read_meta, sort_log, list_log, replay_log, parse_mutation, put_log,
}
use saku.Session.Storage.Loading.{load-IsValid}
use saku.Session.Repo.{is_taken, is_session_id, import_session, metadata_of, put_all}
use saku.Session.Repo.Adoption.{import_session-again}
use saku.Session.Storage.OneOpen.{HasOneOpen, used-HasOneOpen}

abbrev first_entry : Entry
first_entry = record {
  id = "e1";
  type = EntryType.message;
  custom_type = none;
  body = "hello";
  parent_id = none;
  seq = 1;
  timestamp = 10;
}

abbrev first_change : SessionMutation
first_change = SessionMutation.entry (some "main") first_entry

abbrev one_state : SessionState
one_state = write_entry initial (some "main") first_entry

one_state-replayed : replay initial (first_change ∷ []) ≡ ok one_state
unfolding replay initial apply_mutation apply_entry write_entry get next_sequence
one_state-replayed = refl

one_state-applied : apply_mutation initial first_change ≡ ok one_state
unfolding initial apply_mutation apply_entry write_entry get next_sequence
one_state-applied = refl

one_state-IsValid : IsValid one_state
one_state-IsValid =
    apply_mutation-IsValid initial one_state first_change initial-IsValid one_state-applied

apply_mutation-IsValid_example : IsValid one_state
apply_mutation-IsValid_example =
    apply_mutation-IsValid initial one_state first_change initial-IsValid one_state-applied

replay-IsValid_example : IsValid one_state
replay-IsValid_example = replay-IsValid one_state (first_change ∷ []) one_state-replayed

first-found : get "e1" one_state.entries_by_id ≡ some first_entry
unfolding initial write_entry get put
first-found = refl

abbrev any_entry : EntryQuery
any_entry = record { type = none; custom_type = none; cursor = none; order = none; limit = some 2 }

walk_to_root_path_example :
    (path : List Entry) × PathToRoot one_state.entries_by_id first_entry path
    × (walk_to_root one_state "e1" no_bounds ≡ visits (cut_at no_bounds path))
walk_to_root_path_example =
    walk_to_root_path one_state one_state-IsValid no_bounds "e1" first_entry first-found

find_entries_on_branch-eq-filter_example :
    (path : List Entry) × PathToRoot one_state.entries_by_id first_entry path
    × (find_entries_on_branch one_state any_entry no_bounds "e1"
        ≡ ok (
            limited (some 2) (
              filter
                (matches_entry_query any_entry)
                (cut_at no_bounds (branch_order any_entry path)))))
find_entries_on_branch-eq-filter_example =
    find_entries_on_branch-eq-filter one_state any_entry no_bounds "e1" first_entry
      one_state-IsValid first-found refl

abbrev meta : DoSessionMetadata
meta = record { id = "s1"; created_at = 5; cwd = "/work"; parent_session_id = none }

abbrev history : List Operation
history =
    Operation.names_session "a title"
    ∷ Operation.creates_lane "side" none
    ∷ Operation.creates_lane "side" none
    ∷ []

load-perform_all_example :
    load
      (record { meta = (used meta history).keys.meta; log = (used meta history).keys.log })
      (used meta history).metadata.id
    ≡ ok (record (used meta history) {
      keys = record { meta = (used meta history).keys.meta; log = (used meta history).keys.log };
    })
load-perform_all_example = load-perform_all meta history (used meta history).keys.log Shuffle.same

used-HasOneOpen_example : HasOneOpen (used meta history).state
used-HasOneOpen_example = used-HasOneOpen meta history

abbrev disk : SessionKeys
disk = record { meta = some (Value.metadata meta); log = (1, Value.mutation first_change) ∷ [] }

abbrev on_disk : DoSessionStorage
on_disk = record { keys = disk; metadata = meta; state = one_state }

disk-loads : load disk "s1" ≡ ok on_disk
unfolding load read_meta sort_log list_log replay_log parse_mutation initial apply_mutation
    apply_entry write_entry next_sequence get
disk-loads = refl

load-IsValid_example : (on_disk.metadata.id ≡ "s1") × (on_disk.keys ≡ disk) × IsValid on_disk.state
load-IsValid_example = load-IsValid disk "s1" on_disk disk-loads

abbrev adopted : DoSessionStorage
adopted = record {
  keys = record {
    meta = some (Value.metadata (metadata_of "s1" 5 "/work" none));
    log = (1, Value.mutation first_change) ∷ [];
  };
  metadata = metadata_of "s1" 5 "/work" none;
  state = one_state;
}

adopted-ok : (import_session [] "s1" "/work" 5 (first_change ∷ [])).1 ≡ ok adopted
unfolding import_session is_session_id put_all put_log load read_meta sort_log list_log replay_log
    parse_mutation initial apply_mutation apply_entry write_entry next_sequence get
adopted-ok = refl

s1-valid : is_session_id "s1" ≡ true
unfolding is_session_id
s1-valid = refl

s1-free : is_taken [] "s1" ≡ false
unfolding get
s1-free = refl

import_session-again_example :
    import_session
      (import_session [] "s1" "/work" 5 (first_change ∷ first_change ∷ [])).0
      "s1"
      "/work"
      5
      (first_change ∷ [])
    ≡ (
      (import_session [] "s1" "/work" 5 (first_change ∷ first_change ∷ [])).0,
      err SessionError.already_exists,
    )
import_session-again_example =
    import_session-again [] "s1" "/work" "/work" 5 5 (first_change ∷ first_change ∷ [])
      (first_change ∷ []) s1-valid s1-free
