-- ===== src/Session/Repo/Forking.antt =====
-- do-session-repo.ts: what a fork leaves behind.
use saku.Base.{
  ℕ, String, true, false, Option, none, some, List, [], ◌∷◌, ◌≡◌, refl, ap, ◌∙◌, subst, or_else,
  is_some,
}
use saku.Base.Map.{put, get-put_self}
use saku.Session.Types.{SessionMutation, SessionError, Result, ok, err, >>=-eq-ok, ok_injective}
use saku.Session.State.{SessionState, initial, apply_mutation, replay}
use saku.Session.Storage.{
  DoSessionMetadata, DoSessionStorage, SessionKeys, create, load, append_mutation, apply_mutations,
}
use saku.Session.Storage.Recovery.{IsSynced, Shuffle, append_mutation-IsSynced, load_recovers}
use saku.Session.Storage.History.{no_keys, create-IsSynced}
use saku.Session.Fork.{ForkOptions, create_fork_mutations, fork_log}
use saku.Session.Fork.Log.{Forked}
use saku.Session.Fork.Replays.{is_forkable, Outcome, create_fork_mutations-replays}
use saku.Session.Repo.{
  Repo, keys_of, is_taken, is_session_id, metadata_of, put_all, append_all, forked_into,
  fork_loaded, fork_session, open_session,
}

apply_mutations-replay :
    (st : DoSessionStorage) (ms : List SessionMutation) (t : SessionState)
    → replay st.state ms ≡ ok t
    → apply_mutations st ms ≡ ok (record st { state = t })
unfolding apply_mutations replay
apply_mutations-replay st [] t h =
    ap (λ (u : SessionState). ok (record st { state = u })) (ok_injective h)
apply_mutations-replay st (m ∷ ms) t h =
    let (next, accepted, rest) = >>=-eq-ok (apply_mutation st.state m) _ h in
    rw accepted (apply_mutations-replay (record st { state = next }) ms t rest)

-- Written and then applied, a log that replays leaves disk and state in step.
pub append_all-IsSynced :
    (st : DoSessionStorage) (ms : List SessionMutation) (t : SessionState)
    → IsSynced st
    → replay st.state ms ≡ ok t
    → IsSynced (record (append_all st ms) { state = t })
unfolding append_all put_all replay append_mutation
append_all-IsSynced st [] t y h =
    subst (λ (u : SessionState). IsSynced (record st { state = u })) (ok_injective h) y
append_all-IsSynced st (m ∷ ms) t y h =
    let (next, accepted, rest) = >>=-eq-ok (apply_mutation st.state m) _ h in
    append_all-IsSynced (record (append_mutation st m) { state = next }) ms t
      (append_mutation-IsSynced st m next y accepted) rest

module _ (repo : Repo) (src : DoSessionStorage) (options : ForkOptions) (child : String) (now : ℕ)
    (parent : Option String) (y : IsSynced src)
    (on_disk : keys_of repo src.metadata.id ≡ src.keys) where
  fork_session-loaded :
      fork_session repo src.metadata options child now parent
      ≡ fork_loaded repo src.metadata (ok src) options child now parent
  unfolding fork_session
  fork_session-loaded =
      ap (λ (r : Result DoSessionStorage). fork_loaded repo src.metadata r options child now parent)
        (ap (λ (k : SessionKeys). load k src.metadata.id) on_disk
          ∙ load_recovers src src.keys.log y Shuffle.same)

  abbrev child_metadata : DoSessionMetadata
  child_metadata = metadata_of child now "" (some (or_else parent src.metadata.id))

  fork_session-free :
      is_session_id child ≡ true
      → is_taken repo child ≡ false
      → fork_session repo src.metadata options child now parent
        ≡ forked_into repo
            (create child_metadata (keys_of repo child))
            (create_fork_mutations src.state options)
  fork_session-free valid free = fork_session-loaded ∙ rw (valid, free) refl

  fork_written :
      (log : List SessionMutation) (t : SessionState)
      → (keys_of repo child).log ≡ []
      → replay initial log ≡ ok t
      → (st : DoSessionStorage) × IsSynced st
        × (st.state ≡ t)
        × (st.metadata ≡ child_metadata)
        × (forked_into repo (create child_metadata (keys_of repo child)) (ok log)
            ≡ (put child st.keys repo, ok st))
  unfolding create initial append_all
  fork_written log t unlogged replayed =
      let fresh : create child_metadata (keys_of repo child) ≡ create child_metadata no_keys =
        ap (λ l. create child_metadata (record { meta = none; log = l })) unlogged in
      let st = record (append_all (create child_metadata no_keys) log) { state = t } in
      (
        st,
        append_all-IsSynced (create child_metadata no_keys) log t (create-IsSynced child_metadata)
            replayed,
        refl,
        refl,
        ap (λ (c : DoSessionStorage). forked_into repo c (ok log)) fresh
            ∙ ap (λ (r : Result DoSessionStorage). (put child st.keys repo, r))
                (apply_mutations-replay (append_all (create child_metadata no_keys) log) log t
                  replayed),
      )

  reopened :
      (st : DoSessionStorage)
      → IsSynced st
      → st.metadata ≡ child_metadata
      → open_session (put child st.keys repo) st.metadata ≡ ok st
  unfolding open_session
  reopened st synced own =
      let named : st.metadata.id ≡ child = ap (λ (m : DoSessionMetadata). m.id) own in
      let there : keys_of (put child st.keys repo) st.metadata.id ≡ st.keys =
        ap (λ id. keys_of (put child st.keys repo) id) named
        ∙ ap (λ (k : Option SessionKeys). or_else k (record { meta = none; log = [] }))
            (get-put_self child st.keys repo) in
      ap (λ (k : SessionKeys). load k st.metadata.id) there
      ∙ load_recovers st st.keys.log synced Shuffle.same

-- A session that is in step with its keys is forked under a free identifier with no log left behind,
-- from a tree, a message or a null leaf: the fork succeeds, its state has the copied entries numbered
-- from one, disk and memory are in step, and opening the fork gives the same storage back.
pub fork_session-IsSynced :
    (repo : Repo) (src : DoSessionStorage) (options : ForkOptions) (child : String) (now : ℕ)
    (parent : Option String)
    → IsSynced src
    → keys_of repo src.metadata.id ≡ src.keys
    → is_session_id child ≡ true
    → is_taken repo child ≡ false
    → (keys_of repo child).log ≡ []
    → is_forkable src.state options ≡ true
    → (f : Forked src.state options) × (st : DoSessionStorage) × (fork_session repo src.metadata
          options child now parent
        ≡ (put child st.keys repo, ok st))
      × (st.state ≡ f.child)
      × IsSynced st
      × (open_session (put child st.keys repo) st.metadata ≡ ok st)
fork_session-IsSynced repo src options child now parent y on_disk valid free unlogged forkable =
    let f : Forked src.state options =
      subst (λ b. Outcome b src.state options) forkable
        (create_fork_mutations-replays src.state y.history options y.in_memory) in
    let (st, synced, state, own, written) =
      fork_written repo src options child now parent y on_disk (fork_log src.state f.copied f.lanes)
        f.child unlogged f.replayed in
    (
      f,
      st,
      fork_session-free repo src options child now parent y on_disk valid free
          ∙ ap
              (forked_into repo (
                create (child_metadata repo src options child now parent y on_disk)
                  (keys_of repo child)))
              f.made
          ∙ written,
      state,
      synced,
      reopened repo src options child now parent y on_disk st synced own,
    )

-- A fork, of a session that is in step with its keys and under a free identifier, from an entry that
-- is no message fails with `invalid_fork_target`, but only after the metadata of the child is written:
-- the identifier is taken afterwards.
pub fork_session-refused :
    (repo : Repo) (src : DoSessionStorage) (options : ForkOptions) (child : String) (now : ℕ)
    (parent : Option String)
    → IsSynced src
    → keys_of repo src.metadata.id ≡ src.keys
    → is_session_id child ≡ true
    → is_taken repo child ≡ false
    → is_forkable src.state options ≡ false
    → ((fork_session repo src.metadata options child now parent).1
        ≡ err SessionError.invalid_fork_target)
      × (is_taken (fork_session repo src.metadata options child now parent).0 child ≡ true)
unfolding create
fork_session-refused repo src options child now parent y on_disk valid free refused =
    let failed : create_fork_mutations src.state options ≡ err SessionError.invalid_fork_target =
      subst (λ b. Outcome b src.state options) refused
        (create_fork_mutations-replays src.state y.history options y.in_memory) in
    let result =
      fork_session-free repo src options child now parent y on_disk valid free
      ∙ ap
          (forked_into repo (
            create (child_metadata repo src options child now parent y on_disk)
              (keys_of repo child)))
          failed in
    (
      ap (λ (r : Repo × Result DoSessionStorage). r.1) result,
      ap (λ (r : Repo × Result DoSessionStorage). is_taken r.0 child) result
          ∙ ap
              (λ (k : Option SessionKeys).
                is_some (or_else {A = SessionKeys} k (record { meta = none; log = [] })).meta)
              (get-put_self child _ repo),
    )
