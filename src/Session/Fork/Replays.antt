-- ===== src/Session/Fork/Replays.antt =====
-- session-state.ts: the log of a fork replays into a new session.
use saku.Base.{
  String, Bool, true, false, Option, none, some, List, [], ◌∷◌, ◌≡◌, refl, sym, ap, ◌∙◌, subst,
  arith, All-map, or_else, Option-cases, inl, inr, is_some,
}
use saku.Base.Map.{get, has}
use saku.Session.Types.{Entry, SessionMutation, SessionError, ok, err}
use saku.Session.State.{SessionState, initial, replay, is_message, require_lane, target_exists}
use saku.Session.Invariant.{IsValid, ParentBelow}
use saku.Session.Invariant.Replay.{replay-IsValid}
use saku.Session.Fork.{
  ForkOptions, ForkPosition, default_position, target_at, selected_entry, message_target,
  fork_target, fork_parts, create_fork_mutations,
}
use saku.Session.Fork.Ordered.{IsOrdered, known-target_exists, replay-IsOrdered}
use saku.Session.Fork.Copied.{find_entries-oldest_first, branch-InOrder}
use saku.Session.Fork.Log.{Forked, forked}

-- A null leaf, or a message.
unfoldable pub is_message_at : SessionState → Option String → Bool
is_message_at s none = true
is_message_at s (some id) = elim (get id s.entries_by_id) [
  | none ↦ false
  | some e ↦ is_message e.type
]

-- What can be forked: a tree, a message, and the branch of the main lane where its leaf is null or a
-- message.
unfoldable pub is_forkable : SessionState → ForkOptions → Bool
unfolding is_message_at
is_forkable s ForkOptions.tree = true
is_forkable s (ForkOptions.branch none position) =
    is_message_at s (or_else (get "main" s.lanes) none)
is_forkable s (ForkOptions.branch (some id) position) = is_message_at s (some id)

abbrev pub Outcome : Bool → SessionState → ForkOptions → Type 0
Outcome true s options = Forked s options
Outcome false s options = create_fork_mutations s options ≡ err SessionError.invalid_fork_target

fork-refused :
    (s : SessionState) (entry_id : Option String) (position : Option ForkPosition)
    (e : SessionError)
    → fork_target s entry_id position ≡ err e
    → create_fork_mutations s (ForkOptions.branch entry_id position) ≡ err e
unfolding create_fork_mutations fork_parts
fork-refused s entry_id position e refused = rw refused refl

module _ (s : SessionState) (v : IsValid s) (o : IsOrdered s) where
  fork-tree : Forked s ForkOptions.tree
  unfolding fork_parts
  fork-tree =
      forked s ForkOptions.tree s.entries s.lanes (rw (find_entries-oldest_first s) refl) o.in_order
        (All-map (λ (lane : String × Option String) h. known-target_exists s lane.1 o h) s.lanes
          o.lanes_there)

  -- The branch of a target that is null or there.
  fork-at :
      (entry_id : Option String) (position : Option ForkPosition) (target : Option String)
      → fork_target s entry_id position ≡ ok target
      → target_exists s target ≡ true
      → Forked s (ForkOptions.branch entry_id position)
  unfolding fork_parts
  fork-at entry_id position none at there =
      forked s (ForkOptions.branch entry_id position) [] (("main", none) ∷ []) (rw at refl) tt
        (refl, tt)
  fork-at entry_id position (some target) at there =
      elim (Option-cases (get target s.entries_by_id)) [
        | inl absent ↦ ground arith
        | inr (e, found) ↦
            let (copied, walked, ordered, last) = branch-InOrder s v target e found in
            forked s (ForkOptions.branch entry_id position) copied (("main", some target) ∷ [])
              (rw (at, walked) refl) ordered (last, tt)
      ]

  message_found :
      (id : String) (e : Entry) (position : ForkPosition)
      → get id s.entries_by_id ≡ some e
      → target_exists s (target_at position e) ≡ true
  message_found id e ForkPosition.at found =
      subst (λ t. has t s.entries_by_id ≡ true) (sym (v.named id found)) (ap is_some found)
  message_found id e ForkPosition.before found = at e.parent_id (v.rooted id found)
    where
      at :
          (parent : Option String)
          → ParentBelow s.entries_by_id parent e.seq
          → target_exists s parent ≡ true
      at none _ = refl
      at (some p) (_, there, _) = ap is_some there

  fork-branch :
      (entry_id : Option String) (position : Option ForkPosition) (selected : Option String)
      → selected_entry s entry_id ≡ ok selected
      → Outcome (is_message_at s selected) s (ForkOptions.branch entry_id position)
  unfolding is_message_at fork_target
  fork-branch entry_id position none chosen = fork-at entry_id position none (rw chosen refl) refl
  fork-branch entry_id position (some id) chosen = at (get id s.entries_by_id) refl
    where
      on : ForkPosition
      on = or_else position (default_position entry_id)

      aim : fork_target s entry_id position ≡ message_target on (get id s.entries_by_id)
      aim = rw chosen refl

      at :
          (found : Option Entry)
          → get id s.entries_by_id ≡ found
          → Outcome
              (elim found as (λ _. Bool) [ none ↦ false | some e ↦ is_message e.type ])
              s
              (ForkOptions.branch entry_id position)
      at none h =
          fork-refused s entry_id position SessionError.invalid_fork_target
            (aim ∙ ap (message_target on) h)
      at (some e) h = by_type (is_message e.type) refl
        where
          by_type :
              (b : Bool)
              → is_message e.type ≡ b
              → Outcome b s (ForkOptions.branch entry_id position)
          by_type false other =
              fork-refused s entry_id position SessionError.invalid_fork_target
                (aim ∙ ap (message_target on) h ∙ rw (other, message_target) refl)
          by_type true message =
              fork-at entry_id position (target_at on e)
                (aim ∙ ap (message_target on) h ∙ rw (message, message_target) refl)
                (message_found id e on h)

  fork-selected :
      (position : Option ForkPosition) (leaf : Option (Option String))
      → get "main" s.lanes ≡ leaf
      → Outcome (is_message_at s (or_else leaf none)) s (ForkOptions.branch none position)
  unfolding require_lane
  fork-selected position none absent = absurd (false_true (sym (ap is_some absent) ∙ v.main_lane))
    where
      false_true : ¬ (false ≡ true)
      false_true h = cc
  fork-selected position (some leaf) found =
      fork-branch none position leaf (rw (found, selected_entry, require_lane) refl)

  fork-outcome : (options : ForkOptions) → Outcome (is_forkable s options) s options
  unfolding is_forkable
  fork-outcome ForkOptions.tree = fork-tree
  fork-outcome (ForkOptions.branch none position) = fork-selected position (get "main" s.lanes) refl
  fork-outcome (ForkOptions.branch (some id) position) =
      fork-branch (some id) position (some id) refl

-- A session that a log replays to is forked exactly where it can be: a tree always, a branch from a
-- null leaf or a message. The log of the fork then replays from the empty session without an error
-- into a state that satisfies the invariant and whose entries are the copied ones, numbered from one.
-- Elsewhere the fork is refused with `invalid_fork_target`.
pub create_fork_mutations-replays :
    (s : SessionState) (changes : List SessionMutation) (options : ForkOptions)
    → replay initial changes ≡ ok s
    → Outcome (is_forkable s options) s options
create_fork_mutations-replays s changes options h =
    fork-outcome s (replay-IsValid s changes h) (replay-IsOrdered s changes h) options
