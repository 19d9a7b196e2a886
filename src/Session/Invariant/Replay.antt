-- ===== src/Session/Invariant/Replay.antt =====
-- Accepted mutations keep the invariant, one at a time and over a whole log.
use saku.Base.{◌+◌, List, [], ◌∷◌, ◌≡◌, subst}
use saku.Session.Types.{SessionMutation, ok, >>=-eq-ok, ok_injective}
use saku.Session.State.{SessionState, initial, apply_kind, apply_mutation, replay, mutation_seq_of}
use saku.Session.Accepted.{
  apply_entry-eq-ok, apply_record-eq-ok, apply_lane-eq-ok, apply_label-eq-ok, apply_mutation-eq-ok,
}
use saku.Session.Invariant.{IsValid, initial-IsValid}
use saku.Session.Invariant.EntryArm.{write_entry-IsValid}
use saku.Session.Invariant.OtherArms.{
  write_record-IsValid, write_lane-IsValid, write_name-IsValid, write_label-IsValid,
}

apply_kind-IsValid :
    (s t : SessionState) (change : SessionMutation)
    → IsValid s
    → mutation_seq_of change ≡ s.sequence + 1
    → apply_kind s change ≡ ok t
    → IsValid t
apply_kind-IsValid s t (SessionMutation.entry lane e) v next h =
    let (unused, chained, parent, same) = apply_entry-eq-ok s t lane e h in
    subst IsValid same (write_entry-IsValid s v lane e next unused parent)
apply_kind-IsValid s t (SessionMutation.lane_record r) v next h =
    let (_, _, same) = apply_record-eq-ok s t r h in
    subst IsValid same (write_record-IsValid s v r next)
apply_kind-IsValid s t (SessionMutation.lane seq lane leaf) v next h =
    let (live, same) = apply_lane-eq-ok s t seq lane leaf h in
    subst IsValid same (write_lane-IsValid s v seq lane leaf next live)
apply_kind-IsValid s t (SessionMutation.name seq name) v next h =
    subst IsValid (ok_injective h) (write_name-IsValid s v seq name next)
apply_kind-IsValid s t (SessionMutation.label seq target label) v next h =
    let (live, same) = apply_label-eq-ok s t seq target label h in
    subst IsValid same (write_label-IsValid s v seq target label next live)

-- Every mutation that is accepted in a state that satisfies the invariant leads to one that does.
pub apply_mutation-IsValid :
    (s t : SessionState) (change : SessionMutation)
    → IsValid s
    → apply_mutation s change ≡ ok t
    → IsValid t
apply_mutation-IsValid s t change v h =
    let (next, accepted) = apply_mutation-eq-ok s t change h in
    apply_kind-IsValid s t change v next accepted

replay-IsValid_from :
    (s t : SessionState) (changes : List SessionMutation)
    → IsValid s
    → replay s changes ≡ ok t
    → IsValid t
unfolding replay
replay-IsValid_from s t [] v h = subst IsValid (ok_injective h) v
replay-IsValid_from s t (change ∷ changes) v h =
    let (next, accepted, rest) = >>=-eq-ok (apply_mutation s change) _ h in
    replay-IsValid_from next t changes (apply_mutation-IsValid s next change v accepted) rest

-- A log that replays without an error from the empty session ends in a state that satisfies the
-- invariant: parents are earlier entries, lanes and labels point at entries that are there, the
-- main lane is there and the log is numbered 1, 2, … up to the sequence.
pub replay-IsValid :
    (t : SessionState) (changes : List SessionMutation) → replay initial changes ≡ ok t → IsValid t
replay-IsValid t changes h = replay-IsValid_from initial t changes initial-IsValid h
