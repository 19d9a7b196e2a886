-- ===== src/Session/Fork/Tests.antt =====
-- Forks of a session with a message and a tree of two entries.
use saku.Base.{List, none, some, true, false, [], ◌∷◌, ◌≡◌, refl}
use saku.Base.Map.{get, put}
use saku.Session.Types.{EntryType, Entry, SessionMutation, SessionError, Result, ok, err}
use saku.Session.State.{
  SessionState, initial, write_entry, write_label, apply_entry, apply_label, apply_mutation, replay,
  next_sequence, require_lane, validate_unused_id, validate_new_lane, validate_target, apply_lane,
  write_lane, write_name,
}
use saku.Session.Storage.{
  ProvisionedEntry, create, append_entry, validate_entry, commit, build_entry, append_mutation,
  create_lane, set_name, DoSessionMetadata, DoSessionStorage,
}
use saku.Session.Storage.History.{Operation, used, used-IsSynced, perform, perform_all}
use saku.Session.Storage.Recovery.{IsSynced}
use saku.Session.Repo.{Repo, keys_of, is_taken, is_session_id, fork_session, open_session}
use saku.Session.Repo.Forking.{fork_session-IsSynced, fork_session-refused}
use saku.Session.Fork.{ForkOptions}
use saku.Session.Fork.Log.{Forked}
use saku.Session.Fork.Replays.{is_forkable, is_message_at, Outcome, create_fork_mutations-replays}

abbrev question : Entry
question = record {
  id = "q";
  type = EntryType.message;
  custom_type = none;
  body = "why";
  parent_id = none;
  seq = 1;
  timestamp = 10;
}

abbrev change : Entry
change = record question { id = "m"; type = EntryType.model_change; parent_id = some "q"; seq = 2 }

abbrev history : Result SessionState
history = replay initial (
    SessionMutation.entry (some "main") question
    ∷ SessionMutation.entry (some "main") change
    ∷ SessionMutation.label 3 "q" (some "start")
    ∷ [])

abbrev state : SessionState
state =
    write_label (write_entry (write_entry initial (some "main") question) (some "main") change) 3
      "q" (some "start")

replayed : history ≡ ok state
unfolding replay initial apply_mutation apply_entry apply_label write_entry write_label
    next_sequence get put
replayed = refl

abbrev changes : List SessionMutation
changes =
    SessionMutation.entry (some "main") question
    ∷ SessionMutation.entry (some "main") change
    ∷ SessionMutation.label 3 "q" (some "start")
    ∷ []

create_fork_mutations-replays_example :
    Outcome (is_forkable state ForkOptions.tree) state ForkOptions.tree
create_fork_mutations-replays_example =
    create_fork_mutations-replays state changes ForkOptions.tree replayed

-- The main lane's leaf is a model change, so its branch cannot be forked.
leaf_refused : is_forkable state (ForkOptions.branch none none) ≡ false
unfolding is_forkable is_message_at initial write_entry write_label get put
leaf_refused = refl

abbrev meta : DoSessionMetadata
meta = record { id = "s1"; created_at = 5; cwd = ""; parent_session_id = none }

abbrev source : DoSessionStorage
source = used meta (Operation.names_session "a title" ∷ Operation.creates_lane "side" none ∷ [])

abbrev repo : Repo
repo = ("s1", source.keys) ∷ []

stored : keys_of repo source.metadata.id ≡ source.keys
unfolding create perform_all perform append_entry validate_entry require_lane validate_unused_id
    commit build_entry append_mutation apply_mutation apply_entry write_entry next_sequence initial
    get put create_lane set_name validate_new_lane validate_target apply_lane write_lane write_name
stored = refl

s2-valid : is_session_id "s2" ≡ true
unfolding is_session_id
s2-valid = refl

s2-free : is_taken repo "s2" ≡ false
unfolding get
s2-free = refl

s2-unlogged : (keys_of repo "s2").log ≡ []
unfolding get
s2-unlogged = refl

tree_forkable : is_forkable source.state ForkOptions.tree ≡ true
unfolding is_forkable
tree_forkable = refl

fork_session-IsSynced_example :
    (f : Forked source.state ForkOptions.tree) × (st : DoSessionStorage) × (fork_session repo
        source.metadata ForkOptions.tree "s2" 9 none
      ≡ (put "s2" st.keys repo, ok st))
    × (st.state ≡ f.child)
    × IsSynced st
    × (open_session (put "s2" st.keys repo) st.metadata ≡ ok st)
fork_session-IsSynced_example =
    fork_session-IsSynced repo source ForkOptions.tree "s2" 9 none
      (used-IsSynced meta
        (Operation.names_session "a title" ∷ Operation.creates_lane "side" none ∷ []))
      stored s2-valid s2-free s2-unlogged tree_forkable

abbrev model_entry : ProvisionedEntry
model_entry = record { id = "m"; type = EntryType.model_change; custom_type = none; body = "x" }

abbrev configured : DoSessionStorage
configured = used meta (Operation.appends_entry 7 model_entry "main" ∷ [])

not_forkable : is_forkable configured.state (ForkOptions.branch none none) ≡ false
unfolding is_forkable is_message_at create perform_all perform append_entry validate_entry
    require_lane validate_unused_id commit build_entry append_mutation apply_mutation apply_entry
    write_entry next_sequence initial get put create_lane set_name validate_new_lane validate_target
    apply_lane write_lane write_name
not_forkable = refl

configured_stored : keys_of (("s1", configured.keys) ∷ []) configured.metadata.id ≡ configured.keys
unfolding create perform_all perform append_entry validate_entry require_lane validate_unused_id
    commit build_entry append_mutation apply_mutation apply_entry write_entry next_sequence initial
    get put create_lane set_name validate_new_lane validate_target apply_lane write_lane write_name
configured_stored = refl

s2-free' : is_taken (("s1", configured.keys) ∷ []) "s2" ≡ false
unfolding get
s2-free' = refl

fork_session-refused_example :
    ((fork_session
        (("s1", configured.keys) ∷ [])
        configured.metadata
        (ForkOptions.branch none none)
        "s2"
        9
        none).1
      ≡ err SessionError.invalid_fork_target)
    × (is_taken
          (fork_session
            (("s1", configured.keys) ∷ [])
            configured.metadata
            (ForkOptions.branch none none)
            "s2"
            9
            none).0
          "s2"
        ≡ true)
fork_session-refused_example =
    fork_session-refused (("s1", configured.keys) ∷ []) configured (ForkOptions.branch none none)
      "s2" 9 none (used-IsSynced meta (Operation.appends_entry 7 model_entry "main" ∷ []))
      configured_stored s2-valid s2-free' not_forkable
