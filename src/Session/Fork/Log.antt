-- ===== src/Session/Fork/Log.antt =====
-- session-state.ts: the log that a fork writes fits a new session, where what is copied stands in
-- order.
use saku.Base.{String, true, Option, List, [], ◌≡◌, refl, ◌∙◌, All, append-nil}
use saku.Base.Map.{Map}
use saku.Session.Types.{Entry, ok}
use saku.Session.State.{SessionState, initial, replay}
use saku.Session.Invariant.{IsValid}
use saku.Session.Invariant.Replay.{replay-IsValid}
use saku.Session.Replayable.{
  known, Replayable, entries_of, replay-total, replay-entries, initial-Tracks,
}
use saku.Session.Fork.{
  ForkOptions, fork_parts, copy_entries, copy_lanes, copy_name, fork_log, lanes_from, name_from,
  labels_from, create_fork_mutations,
}
use saku.Session.Fork.Ordered.{InOrder, ids_behind}
use saku.Session.Fork.Numbered.{
  then_numbered-Replayable, entries_of-then_numbered, renumbered, copy_entries-Replayable,
  all_after-copy_entries, entries_of-copy_entries, copy_lanes-Replayable, all_after-copy_lanes,
  entries_of-copy_lanes, copy_name-Replayable, all_after-copy_name, entries_of-copy_name,
  copy_labels-Replayable, entries_of-copy_labels, All-behind,
}

-- The leaf of every lane of a fork is null or copied.
abbrev pub LanesCopied : List Entry → Map (Option String) → Type 0
LanesCopied copied =
    All (λ (lane : String × Option String). known (ids_behind [] copied) lane.1 ≡ true)

module _ (s : SessionState) (copied : List Entry) (lanes : Map (Option String)) where
  pub fork_log-Replayable :
      InOrder [] copied → LanesCopied copied lanes → Replayable 0 [] (fork_log s copied lanes)
  unfolding fork_log
  fork_log-Replayable ordered there =
      let ids = ids_behind [] copied in
      then_numbered-Replayable 0 [] ids (copy_entries 0 copied) _
        (copy_entries-Replayable 0 [] copied ordered) (all_after-copy_entries 0 [] copied)
        λ n.
          then_numbered-Replayable n ids ids (copy_lanes n lanes) _
            (copy_lanes-Replayable n ids lanes there) (all_after-copy_lanes n ids lanes)
            λ m.
              then_numbered-Replayable m ids ids (copy_name m s.name) _
                (copy_name-Replayable m ids s.name) (all_after-copy_name m ids s.name)
                λ k. copy_labels-Replayable k ids s.labels copied (All-behind [] copied)

  entries_of-fork_log : entries_of (fork_log s copied lanes) ≡ renumbered 0 copied
  unfolding fork_log
  entries_of-fork_log =
      entries_of-then_numbered 0 (copy_entries 0 copied) (lanes_from s copied lanes)
        (entries_of-copy_entries 0 copied)
        (λ n.
          entries_of-then_numbered n (copy_lanes n lanes) (name_from s copied)
            (entries_of-copy_lanes n lanes)
            λ m.
              entries_of-then_numbered m (copy_name m s.name) (labels_from s copied)
                (entries_of-copy_name m s.name) λ k. entries_of-copy_labels k s.labels copied)
      ∙ append-nil (renumbered 0 copied)

-- A fork: its log replays into a session that satisfies the invariant and has the copied entries,
-- numbered from one.
pub record Forked (s : SessionState) (options : ForkOptions) : Type 0 where
  pub copied : List Entry
  pub lanes : Map (Option String)
  pub parts : fork_parts s options ≡ ok (copied, lanes)
  pub made : create_fork_mutations s options ≡ ok (fork_log s copied lanes)
  pub child : SessionState
  pub replayed : replay initial (fork_log s copied lanes) ≡ ok child
  pub valid : IsValid child
  pub entries : child.entries ≡ renumbered 0 copied

pub forked :
    (s : SessionState) (options : ForkOptions) (copied : List Entry) (lanes : Map (Option String))
    → fork_parts s options ≡ ok (copied, lanes)
    → InOrder [] copied
    → LanesCopied copied lanes
    → Forked s options
unfolding create_fork_mutations initial
forked s options copied lanes parts ordered there =
    let (child, replayed) =
      replay-total initial 0 [] (fork_log s copied lanes) initial-Tracks
        (fork_log-Replayable s copied lanes ordered there) in
    record {
      copied = copied;
      lanes = lanes;
      parts = parts;
      made = rw parts refl;
      child = child;
      replayed = replayed;
      valid = replay-IsValid child (fork_log s copied lanes) replayed;
      entries =
          replay-entries initial child (fork_log s copied lanes) replayed
          ∙ entries_of-fork_log s copied lanes;
    }
