-- ===== src/Session/Accepted.antt =====
-- What `applyMutation` checked before it accepted a mutation, arm by arm, and what it wrote.
use saku.Base.{ℕ, ◌+◌, String, Bool, true, false, not, Option, ◌≡◌, refl, ==_iff, mem?}
use saku.Base.Map.{has}
use saku.Session.Types.{Entry, LaneRecord, SessionMutation, ok, ok_injective, guard-eq-ok}
use saku.Session.State.{
  SessionState, target_exists, chains, write_entry, apply_entry, write_record, apply_record,
  write_lane, apply_lane, write_label, apply_label, apply_kind, apply_mutation, mutation_seq_of,
  next_sequence,
}

not-true : (b : Bool) → not b ≡ true → b ≡ false
not-true true h = cc
not-true false h = refl

-- What the entry arm checked before it wrote.
pub apply_entry-eq-ok :
    (s t : SessionState) (lane : Option String) (e : Entry)
    → apply_entry s lane e ≡ ok t
    → (mem? e.id s.used_ids ≡ false)
      × (chains s.lanes lane e.parent_id ≡ true)
      × (target_exists s e.parent_id ≡ true)
      × (write_entry s lane e ≡ t)
unfolding apply_entry
apply_entry-eq-ok s t lane e h =
    let (unused, h₁) = guard-eq-ok _ _ _ h in
    let (chained, h₂) = guard-eq-ok _ _ _ h₁ in
    let (parent, h₃) = guard-eq-ok _ _ _ h₂ in (not-true _ unused, chained, parent, ok_injective h₃)

pub apply_record-eq-ok :
    (s t : SessionState) (r : LaneRecord)
    → apply_record s r ≡ ok t
    → (has r.lane s.lanes ≡ true) × (mem? r.id s.used_ids ≡ false) × (write_record s r ≡ t)
unfolding apply_record
apply_record-eq-ok s t r h =
    let (there, h₁) = guard-eq-ok _ _ _ h in
    let (unused, h₂) = guard-eq-ok _ _ _ h₁ in (there, not-true _ unused, ok_injective h₂)

pub apply_lane-eq-ok :
    (s t : SessionState) (seq : ℕ) (lane : String) (leaf : Option String)
    → apply_lane s seq lane leaf ≡ ok t
    → (target_exists s leaf ≡ true) × (write_lane s seq lane leaf ≡ t)
unfolding apply_lane
apply_lane-eq-ok s t seq lane leaf h =
    let (live, h₁) = guard-eq-ok _ _ _ h in (live, ok_injective h₁)

pub apply_label-eq-ok :
    (s t : SessionState) (seq : ℕ) (target : String) (label : Option String)
    → apply_label s seq target label ≡ ok t
    → (has target s.entries_by_id ≡ true) × (write_label s seq target label ≡ t)
unfolding apply_label
apply_label-eq-ok s t seq target label h =
    let (live, h₁) = guard-eq-ok _ _ _ h in (live, ok_injective h₁)

pub apply_mutation-eq-ok :
    (s t : SessionState) (change : SessionMutation)
    → apply_mutation s change ≡ ok t
    → (mutation_seq_of change ≡ s.sequence + 1) × (apply_kind s change ≡ ok t)
unfolding apply_mutation next_sequence
apply_mutation-eq-ok s t change h =
    let (next, h₁) = guard-eq-ok _ _ _ h in ((==_iff _ _).0 next, h₁)
