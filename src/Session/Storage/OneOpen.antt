-- ===== src/Session/Storage/OneOpen.antt =====
-- A lane never has two open operations.
use saku.Base.{
  ℕ, ◌≤◌, String, true, some, List, [], ◌∷◌, ◌++◌, reverse, ◌≡◌, refl, subst, inl, inr, length,
  take, or_else, arith, Option-cases,
}
use saku.Base.Map.{Map, get, put, remove, values, get-put_cases}
use saku.Session.Types.{
  RecordBody, LaneRecord, SessionMutation, ok, ◌>>◌, Result-cases, ok_injective, >>=-eq-ok,
}
use saku.Session.State.{
  SessionState, initial, track_operation, write_entry, write_record, write_lane, write_name,
  write_label, apply_mutation, apply_kind, validate_unused_id, validate_new_lane, validate_target,
  require_lane, next_sequence,
}
use saku.Session.Accepted.{
  apply_entry-eq-ok, apply_record-eq-ok, apply_lane-eq-ok, apply_label-eq-ok, apply_mutation-eq-ok,
}
use saku.Session.Query.{find_open_operations, assert_valid_limit}
use saku.Session.Storage.{
  DoSessionMetadata, DoSessionStorage, append_mutation, commit, create, create_lane, move_lane,
  append_entry, append_record, set_name, set_label, NewRecord, build_record, build_entry,
  validate_operation, validate_record, validate_entry, commit_entry, commit_record,
  starts_operation, is_empty,
}
use saku.Session.Storage.Operations.{answer_keeps}
use saku.Session.Storage.History.{used, Operation, perform, perform_all, no_keys}
use mathlib.Core.List.{reverse-cons}

abbrev pub HasOneOpen : SessionState → Type 0
HasOneOpen s =
    (lane : String) (open_operations : Map LaneRecord)
    → get lane s.open_operations_by_lane ≡ some open_operations
    → length open_operations ≤ 1

length-remove : (k : String) (m : Map LaneRecord) → length (remove k m) ≤ length m
unfolding remove
length-remove k [] = omega arith
length-remove k ((j, v) ∷ m) = ground (arith, length-remove k m)

-- No result within a limit of one means that there is nothing.
nothing_open : (m : Map LaneRecord) → is_empty (take 1 (reverse (values m))) ≡ true → m ≡ []
nothing_open [] h = refl
nothing_open ((k, v) ∷ m) h =
    absurd (last_there (reverse (values m)) v (rw (reverse-cons v (values m)) at h))
  where
    last_there :
        (xs : List LaneRecord) (x : LaneRecord) → ¬ (is_empty (take 1 (xs ++ x ∷ [])) ≡ true)
    last_there [] x h = cc
    last_there (y ∷ xs) x h = cc

validate_operation-eq-ok :
    (s : SessionState) (new : NewRecord) (m : Map LaneRecord)
    → starts_operation new.body ≡ true
    → get new.lane s.open_operations_by_lane ≡ some m
    → validate_operation s new ≡ ok tt
    → m ≡ []
unfolding validate_operation find_open_operations assert_valid_limit
validate_operation-eq-ok s new m starts there h = nothing_open m (ground arith)

module _ (s : SessionState) (one : HasOneOpen s) where
  started_one :
      (r : LaneRecord)
      → ((m : Map LaneRecord) → get r.lane s.open_operations_by_lane ≡ some m → m ≡ [])
      → length (put r.id r (or_else (get r.lane s.open_operations_by_lane) [])) ≤ 1
  unfolding put
  started_one r none_open = elim (Option-cases (get r.lane s.open_operations_by_lane)) [
    | inl e ↦ rw e (omega arith)
    | inr (m, e) ↦ rw e (rw (none_open m e) (omega arith))
  ]

  tracked_one :
      (r : LaneRecord) (body : RecordBody) (lane : String) (m : Map LaneRecord)
      → (starts_operation body ≡ true
          → (m : Map LaneRecord) → get r.lane s.open_operations_by_lane ≡ some m
          → m ≡ [])
      → get lane (track_operation r body s.open_operations_by_lane) ≡ some m
      → length m ≤ 1
  tracked_one r (RecordBody.operation_started kind) lane m none_open h =
      elim (get-put_cases _ lane _ _ h) [
        | inl (_, same) ↦ subst (λ t. length t ≤ 1) same (started_one r (none_open refl))
        | inr old ↦ one lane m old
      ]
  tracked_one r (RecordBody.operation_finished run_id) lane m none_open h =
      elim (Option-cases (get r.lane s.open_operations_by_lane)) [
        | inl e ↦ one lane m (rw (e, track_operation) at h)
        | inr (by_id, e) ↦ elim (get-put_cases r.lane lane _ _ (rw (e, track_operation) at h)) [
          | inl (_, same) ↦
              subst (λ t. length t ≤ 1) same
                (omega (arith, length-remove run_id by_id, one r.lane by_id e))
          | inr old ↦ one lane m old
        ]
      ]
  tracked_one r (RecordBody.abort_requested run_id) lane m none_open h = one lane m h
  tracked_one r (RecordBody.step_attempt run_id) lane m none_open h = one lane m h
  tracked_one r (RecordBody.tool_started run_id) lane m none_open h = one lane m h
  tracked_one r (RecordBody.write_deferred run_id) lane m none_open h = one lane m h
  tracked_one r (RecordBody.queue_enqueued run_id) lane m none_open h = one lane m h
  tracked_one r (RecordBody.queue_cancelled run_id) lane m none_open h = one lane m h
  tracked_one r (RecordBody.usage u run_id) lane m none_open h = one lane m h

-- A mutation that starts an operation only on a lane with none open.
abbrev StartsOnFree : SessionState → SessionMutation → Type 0
StartsOnFree s (SessionMutation.lane_record r) =
    starts_operation r.body ≡ true
    → (m : Map LaneRecord) → get r.lane s.open_operations_by_lane ≡ some m
    → m ≡ []
StartsOnFree s m = Unit

apply_kind-HasOneOpen :
    (s t : SessionState) (m : SessionMutation)
    → HasOneOpen s
    → StartsOnFree s m
    → apply_kind s m ≡ ok t
    → HasOneOpen t
unfolding write_entry write_record write_lane write_name write_label
apply_kind-HasOneOpen s t (SessionMutation.entry at e) one free h =
    subst HasOneOpen (apply_entry-eq-ok s t at e h).3 one
apply_kind-HasOneOpen s t (SessionMutation.lane_record r) one free h =
    subst HasOneOpen (apply_record-eq-ok s t r h).2
      λ lane m there. tracked_one s one r r.body lane m free there
apply_kind-HasOneOpen s t (SessionMutation.lane seq name leaf) one free h =
    subst HasOneOpen (apply_lane-eq-ok s t seq name leaf h).1 one
apply_kind-HasOneOpen s t (SessionMutation.name seq text) one free h =
    subst HasOneOpen (ok_injective h) one
apply_kind-HasOneOpen s t (SessionMutation.label seq target text) one free h =
    subst HasOneOpen (apply_label-eq-ok s t seq target text h).1 one

commit-HasOneOpen {ℓ} :
    {A : Type ℓ} (st : DoSessionStorage) (m : SessionMutation) (result : A)
    → HasOneOpen st.state
    → StartsOnFree st.state m
    → HasOneOpen (commit st m result).0.state
unfolding commit append_mutation
commit-HasOneOpen st m result one free = elim (Result-cases (apply_mutation st.state m)) [
  | inl (t, h) ↦
      rw (h, commit)
        (apply_kind-HasOneOpen st.state t m one free (apply_mutation-eq-ok st.state t m h).1)
  | inr (e, h) ↦ rw (h, commit) one
]

abbrev KeepsOneOpen : DoSessionStorage → Type 0
KeepsOneOpen st = HasOneOpen st.state

validate_record-StartsOnFree :
    (s : SessionState) (new : NewRecord) (now : ℕ)
    → validate_record s new ≡ ok tt
    → StartsOnFree s (SessionMutation.lane_record (build_record new (next_sequence s) now))
unfolding validate_record build_record
validate_record-StartsOnFree s new now h starts m there =
    let (leaf, _, rest) = >>=-eq-ok (require_lane s new.lane) _ h in
    let (_, _, valid) = >>=-eq-ok (validate_unused_id s new.id) _ rest in
    validate_operation-eq-ok s new m starts there valid

perform-HasOneOpen :
    (st : DoSessionStorage) (op : Operation)
    → HasOneOpen st.state
    → HasOneOpen (perform st op).state
unfolding perform create_lane move_lane append_entry append_record set_name set_label
perform-HasOneOpen st (Operation.creates_lane lane at) one =
    let m = SessionMutation.lane (next_sequence st.state) lane at in
    answer_keeps KeepsOneOpen (validate_new_lane st.state lane >> validate_target st.state at)
      (λ _. commit st m tt) st one λ _ _. commit-HasOneOpen st m tt one tt
perform-HasOneOpen st (Operation.moves_lane lane to) one =
    let m = SessionMutation.lane (next_sequence st.state) lane to in
    answer_keeps KeepsOneOpen (require_lane st.state lane >> validate_target st.state to)
      (λ _. commit st m tt) st one λ _ _. commit-HasOneOpen st m tt one tt
perform-HasOneOpen st (Operation.appends_entry now new lane) one =
    answer_keeps KeepsOneOpen (validate_entry st.state new lane)
      (λ leaf. commit_entry st lane (build_entry new leaf (next_sequence st.state) now)) st one
      λ leaf _.
        let e = build_entry new leaf (next_sequence st.state) now in
        commit-HasOneOpen st (SessionMutation.entry (some lane) e) e one tt
perform-HasOneOpen st (Operation.appends_record now new) one =
    answer_keeps KeepsOneOpen (validate_record st.state new)
      (λ _. commit_record st (build_record new (next_sequence st.state) now)) st one
      λ _ h.
        let r = build_record new (next_sequence st.state) now in
        commit-HasOneOpen st (SessionMutation.lane_record r) r one
          (validate_record-StartsOnFree st.state new now h)
perform-HasOneOpen st (Operation.names_session text) one =
    commit-HasOneOpen st (SessionMutation.name (next_sequence st.state) text) tt one tt
perform-HasOneOpen st (Operation.labels_entry id label) one =
    let m = SessionMutation.label (next_sequence st.state) id label in
    answer_keeps KeepsOneOpen (validate_target st.state (some id)) (λ _. commit st m tt) st one
      λ _ _. commit-HasOneOpen st m tt one tt

perform_all-HasOneOpen :
    (st : DoSessionStorage) (ops : List Operation)
    → HasOneOpen st.state
    → HasOneOpen (perform_all st ops).state
unfolding perform_all
perform_all-HasOneOpen st [] one = one
perform_all-HasOneOpen st (op ∷ ops) one =
    perform_all-HasOneOpen (perform st op) ops (perform-HasOneOpen st op one)

-- Over any history of operations on a session created afresh, no lane has more than one open
-- operation.
pub used-HasOneOpen : (m : DoSessionMetadata) (ops : List Operation) → HasOneOpen (used m ops).state
unfolding create initial get
used-HasOneOpen m ops = perform_all-HasOneOpen (create m no_keys) ops (λ lane by_id h. cc)
