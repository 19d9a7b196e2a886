-- ===== src/Session/Invariant/OtherArms.antt =====
-- The record, lane and fact arms of `applyMutation` keep the invariant.
use saku.Base.{ℕ, ◌+◌, ◌≤◌, String, true, Option, none, some, ◌≡◌, refl, inl, inr, arith, subst}
use saku.Base.Map.{get, has, get-put_cases, has-put, get-remove-some}
use saku.Session.Types.{Entry, LaneRecord, LogItem}
use saku.Session.State.{
  SessionState, target_exists, write_record, write_lane, write_name, set_label, write_label,
}
use saku.Session.Invariant.{IsValid, consecutive-append}

-- The other arms leave the entries alone and raise the sequence by one.
module _ (s : SessionState) (v : IsValid s) where
  bounded_later :
      (n : ℕ)
      → n ≡ s.sequence + 1
      → (id : String) {e : Entry} → get id s.entries_by_id ≡ some e
      → e.seq ≤ n
  bounded_later n next id h = omega (arith, v.bounded id h)

  pub write_record-IsValid : (r : LaneRecord) → r.seq ≡ s.sequence + 1 → IsValid (write_record s r)
  unfolding write_record
  write_record-IsValid r next = record {
    used = λ id h. ground (arith, v.used id h);
    named = v.named;
    bounded = bounded_later r.seq next;
    rooted = v.rooted;
    listed = v.listed;
    lanes_live = v.lanes_live;
    labels_live = v.labels_live;
    main_lane = v.main_lane;
    consecutive =
        consecutive-append s.log (LogItem.lane_record r) s.sequence r.seq v.consecutive refl next;
  }

  pub write_lane-IsValid :
      (seq : ℕ) (lane : String) (leaf : Option String)
      → seq ≡ s.sequence + 1
      → target_exists s leaf ≡ true
      → IsValid (write_lane s seq lane leaf)
  unfolding write_lane
  write_lane-IsValid seq lane leaf next live = record {
    used = v.used;
    named = v.named;
    bounded = bounded_later seq next;
    rooted = v.rooted;
    listed = v.listed;
    lanes_live = λ l h. elim (get-put_cases lane l leaf s.lanes h) [
      | inl (_, same) ↦ subst (λ t. target_exists s t ≡ true) same live
      | inr old ↦ v.lanes_live l old
    ];
    labels_live = v.labels_live;
    main_lane = has-put lane "main" leaf s.lanes v.main_lane;
    consecutive =
        consecutive-append s.log (LogItem.lane seq lane leaf) s.sequence seq v.consecutive refl
          next;
  }

  pub write_name-IsValid :
      (seq : ℕ) (name : String) → seq ≡ s.sequence + 1 → IsValid (write_name s seq name)
  unfolding write_name
  write_name-IsValid seq name next = record {
    used = v.used;
    named = v.named;
    bounded = bounded_later seq next;
    rooted = v.rooted;
    listed = v.listed;
    lanes_live = v.lanes_live;
    labels_live = v.labels_live;
    main_lane = v.main_lane;
    consecutive =
        consecutive-append s.log (LogItem.name seq name) s.sequence seq v.consecutive refl next;
  }

  relabelled_live :
      (target : String) (label : Option String) (id : String) {text : String}
      → has target s.entries_by_id ≡ true
      → get id (set_label target label s.labels) ≡ some text
      → has id s.entries_by_id ≡ true
  relabelled_live target none id live h = v.labels_live id (get-remove-some target id s.labels h)
  relabelled_live target (some new) id live h = elim (get-put_cases target id new s.labels h) [
    | inl (same, _) ↦ subst (λ t. has t s.entries_by_id ≡ true) same live
    | inr old ↦ v.labels_live id old
  ]

  pub write_label-IsValid :
      (seq : ℕ) (target : String) (label : Option String)
      → seq ≡ s.sequence + 1
      → has target s.entries_by_id ≡ true
      → IsValid (write_label s seq target label)
  unfolding write_label
  write_label-IsValid seq target label next live = record {
    used = v.used;
    named = v.named;
    bounded = bounded_later seq next;
    rooted = v.rooted;
    listed = v.listed;
    lanes_live = v.lanes_live;
    labels_live = λ id h. relabelled_live target label id live h;
    main_lane = v.main_lane;
    consecutive =
        consecutive-append s.log (LogItem.label seq target label) s.sequence seq v.consecutive refl
          next;
  }
