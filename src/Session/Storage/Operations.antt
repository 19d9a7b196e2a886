-- ===== src/Session/Storage/Operations.antt =====
-- Every operation of the storage leaves disk and memory in step: what is validated is accepted.
use saku.Base.{ℕ, String, true, Option, none, some, ◌≡◌, refl, ◌==◌, opt_eq, arith, eq_refl}
use saku.Base.Map.{get}
use saku.Session.Types.{Entry, LaneRecord, SessionMutation, Result, ok, err, >>=-eq-ok}
use saku.Session.State.{
  SessionState, next_sequence, require_lane, validate_new_lane, validate_target, validate_unused_id,
  apply_mutation, apply_entry, apply_record, apply_lane, apply_label, write_entry, write_record,
  write_lane, write_name, write_label,
}
use saku.Session.Invariant.{IsValid}
use saku.Session.Storage.{
  DoSessionStorage, answer, commit, create_lane, move_lane, append_entry, ProvisionedEntry,
  build_entry, append_record, NewRecord, build_record, validate_entry, validate_record,
  commit_entry, commit_record, set_name, set_label,
}
use saku.Session.Storage.Recovery.{IsSynced, IsSynced-IsValid, append_mutation-IsSynced}

commit-IsSynced {ℓ} :
    {A : Type ℓ} (st : DoSessionStorage) (m : SessionMutation) (result : A)
    → IsSynced st
    → (s : SessionState) × (apply_mutation st.state m ≡ ok s)
    → IsSynced (commit st m result).0
unfolding commit
commit-IsSynced st m result y (s, h) = rw (h, commit) (append_mutation-IsSynced st m s y h)

-- What holds of the storage before, and after each way to go on, holds after.
pub answer_keeps {ℓ κ} :
    (P : DoSessionStorage → Type κ) {A : Type 0} {B : Type ℓ} (r : Result A)
    (k : A → DoSessionStorage × Result B) (st : DoSessionStorage)
    → P st
    → ((a : A) → r ≡ ok a → P (k a).0)
    → P (answer r k st).0
answer_keeps P (ok a) k st y h = h a refl
answer_keeps P (err e) k st y h = y

num_refl : (n : ℕ) → (n == n) ≡ true
num_refl n = ground arith

opt_refl : (o : Option String) → opt_eq o o ≡ true
opt_refl none = refl
opt_refl (some a) = eq_refl a

module _ (s : SessionState) where
  accepts_lane :
      (lane : String) (leaf : Option String)
      → validate_target s leaf ≡ ok tt
      → (t : SessionState) × (apply_mutation s (SessionMutation.lane (next_sequence s) lane leaf)
          ≡ ok t)
  unfolding validate_target apply_mutation apply_lane
  accepts_lane lane leaf h =
      (write_lane s (next_sequence s) lane leaf, ground (arith, num_refl (next_sequence s)))

  accepts_name :
      (name : String)
      → (t : SessionState) × (apply_mutation s (SessionMutation.name (next_sequence s) name) ≡ ok t)
  unfolding apply_mutation
  accepts_name name =
      (write_name s (next_sequence s) name, ground (arith, num_refl (next_sequence s)))

  accepts_label :
      (id : String) (label : Option String)
      → validate_target s (some id) ≡ ok tt
      → (t : SessionState) × (apply_mutation s (SessionMutation.label (next_sequence s) id label)
          ≡ ok t)
  unfolding validate_target apply_mutation apply_label
  accepts_label id label h =
      (write_label s (next_sequence s) id label, ground (arith, num_refl (next_sequence s)))

  accepts_entry :
      (lane : String) (e : Entry)
      → IsValid s
      → require_lane s lane ≡ ok e.parent_id
      → validate_unused_id s e.id ≡ ok tt
      → e.seq ≡ next_sequence s
      → (t : SessionState) × (apply_mutation s (SessionMutation.entry (some lane) e) ≡ ok t)
  unfolding require_lane validate_unused_id apply_mutation apply_entry
  accepts_entry lane e v there unused next =
      let leaf : get lane s.lanes ≡ some e.parent_id = ground arith in
      (
        write_entry s (some lane) e,
        ground (
          arith,
          leaf,
          opt_refl e.parent_id,
          v.lanes_live lane leaf,
          num_refl (next_sequence s),
          next,
        ),
      )

  accepts_record :
      (r : LaneRecord) {leaf : Option String}
      → require_lane s r.lane ≡ ok leaf
      → validate_unused_id s r.id ≡ ok tt
      → r.seq ≡ next_sequence s
      → (t : SessionState) × (apply_mutation s (SessionMutation.lane_record r) ≡ ok t)
  unfolding require_lane validate_unused_id apply_mutation apply_record
  accepts_record r there unused next =
      (write_record s r, ground (arith, num_refl (next_sequence s), next))

validate_entry-eq-ok :
    (s : SessionState) (new : ProvisionedEntry) (lane : String) {leaf : Option String}
    → validate_entry s new lane ≡ ok leaf
    → (require_lane s lane ≡ ok leaf) × (validate_unused_id s new.id ≡ ok tt)
unfolding validate_entry
validate_entry-eq-ok s new lane h = ground arith

pub validate_record-eq-ok :
    (s : SessionState) (new : NewRecord)
    → validate_record s new ≡ ok tt
    → ((leaf : Option String) × (require_lane s new.lane ≡ ok leaf))
      × (validate_unused_id s new.id ≡ ok tt)
unfolding validate_record
validate_record-eq-ok s new h =
    let (leaf, there, rest) = >>=-eq-ok (require_lane s new.lane) _ h in
    let (_, unused, _) = >>=-eq-ok (validate_unused_id s new.id) _ rest in ((leaf, there), unused)

module _ (st : DoSessionStorage) (y : IsSynced st) where
  pub create_lane-IsSynced :
      (lane : String) (at : Option String) → IsSynced (create_lane st lane at).0
  unfolding create_lane
  create_lane-IsSynced lane at = answer_keeps IsSynced _ _ st y λ _ h.
      let (_, _, live) = >>=-eq-ok (validate_new_lane st.state lane) _ h in
      commit-IsSynced st _ tt y (accepts_lane st.state lane at live)

  pub move_lane-IsSynced : (lane : String) (to : Option String) → IsSynced (move_lane st lane to).0
  unfolding move_lane
  move_lane-IsSynced lane to = answer_keeps IsSynced _ _ st y λ _ h.
      let (_, _, live) = >>=-eq-ok (require_lane st.state lane) _ h in
      commit-IsSynced st _ tt y (accepts_lane st.state lane to live)

  pub append_entry-IsSynced :
      (now : ℕ) (new : ProvisionedEntry) (lane : String) → IsSynced (append_entry st now new lane).0
  unfolding append_entry
  append_entry-IsSynced now new lane =
      answer_keeps IsSynced (validate_entry st.state new lane)
        (λ leaf. commit_entry st lane (build_entry new leaf (next_sequence st.state) now)) st y
        λ leaf h.
          let (there, unused) = validate_entry-eq-ok st.state new lane h in
          let e = build_entry new leaf (next_sequence st.state) now in
          commit-IsSynced st (SessionMutation.entry (some lane) e) e y
            (accepts_entry st.state lane e (IsSynced-IsValid st y) there unused refl)

  pub append_record-IsSynced : (now : ℕ) (new : NewRecord) → IsSynced (append_record st now new).0
  unfolding append_record
  append_record-IsSynced now new =
      answer_keeps IsSynced (validate_record st.state new)
        (λ _. commit_record st (build_record new (next_sequence st.state) now)) st y
        λ _ h.
          let ((leaf, there), unused) = validate_record-eq-ok st.state new h in
          let r = build_record new (next_sequence st.state) now in
          commit-IsSynced st (SessionMutation.lane_record r) r y
            (accepts_record st.state r there unused refl)

  pub set_name-IsSynced : (name : String) → IsSynced (set_name st name).0
  unfolding set_name
  set_name-IsSynced name = commit-IsSynced st _ tt y (accepts_name st.state name)

  pub set_label-IsSynced :
      (id : String) (label : Option String) → IsSynced (set_label st id label).0
  unfolding set_label
  set_label-IsSynced id label =
      answer_keeps IsSynced _ _ st y
        λ _ h. commit-IsSynced st _ tt y (accepts_label st.state id label h)
