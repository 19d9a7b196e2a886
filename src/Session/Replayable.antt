-- ===== src/Session/Replayable.antt =====
-- session-state.ts: logs that replay without an error. A log is described by the identifiers that
-- its entries bring in; the checks of `applyMutation` are stated on these.
use saku.Base.{
  ℕ, suc, ◌+◌, String, Bool, true, false, Option, none, some, List, [], ◌∷◌, ◌++◌, ◌≡◌, refl, sym,
  ap, ◌∙◌, subst, length, arith, mem?, str_eq, if◌then◌else◌, ==_iff, ◌==◌, append_assoc,
  append-nil,
}
use saku.Base.Map.{get, put, has, get-put}
use saku.Session.Types.{Entry, SessionMutation, ok, >>=-eq-ok, ok_injective}
use saku.Session.State.{
  SessionState, initial, target_exists, write_entry, apply_entry, write_record, write_lane,
  apply_lane, write_name, write_label, apply_label, apply_kind, apply_mutation, replay,
  mutation_seq_of, next_sequence,
}
use saku.Session.Accepted.{
  apply_entry-eq-ok, apply_record-eq-ok, apply_lane-eq-ok, apply_label-eq-ok, apply_mutation-eq-ok,
}

-- A null reference, or one of the identifiers.
abbrev pub known : List String → Option String → Bool
known ids none = true
known ids (some id) = mem? id ids

-- What `applyMutation` asks of a mutation, its number apart, where these entries are there. Records
-- and entries of a lane are not described.
abbrev pub Fits : List String → SessionMutation → Type 0
Fits ids (SessionMutation.entry lane e) =
    (lane ≡ none) × (mem? e.id ids ≡ false) × (known ids e.parent_id ≡ true)
Fits ids (SessionMutation.lane_record r) = false ≡ true
Fits ids (SessionMutation.lane seq lane leaf) = known ids leaf ≡ true
Fits ids (SessionMutation.name seq name) = Unit
Fits ids (SessionMutation.label seq target label) = mem? target ids ≡ true

abbrev pub ids_after : List String → SessionMutation → List String
ids_after ids (SessionMutation.entry lane e) = e.id ∷ ids
ids_after ids _ = ids

abbrev pub all_after : List String → List SessionMutation → List String
all_after ids [] = ids
all_after ids (m ∷ ms) = all_after (ids_after ids m) ms

-- A log whose first number is n + 1.
abbrev pub Replayable : ℕ → List String → List SessionMutation → Type 0
Replayable n ids [] = Unit
Replayable n ids (m ∷ ms) =
    (mutation_seq_of m ≡ suc n) × Fits ids m × Replayable (suc n) (ids_after ids m) ms

pub Replayable-append :
    (n : ℕ) (ids : List String) (xs ys : List SessionMutation)
    → Replayable n ids xs
    → Replayable (n + length xs) (all_after ids xs) ys
    → Replayable n ids (xs ++ ys)
Replayable-append n ids [] ys h k = subst (λ m. Replayable m ids ys) (omega arith) k
Replayable-append n ids (x ∷ xs) ys (seq, fits, h) k =
    let moved = subst (λ m. Replayable m (all_after ids (x ∷ xs)) ys) (omega arith) k in
    (seq, fits, Replayable-append (suc n) (ids_after ids x) xs ys h moved)

-- The state has this number, and these are its entries and all identifiers in use.
pub record Tracks (s : SessionState) (n : ℕ) (ids : List String) : Type 0 where
  pub count : s.sequence ≡ n
  pub used : (id : String) → mem? id s.used_ids ≡ mem? id ids
  pub there : (id : String) → has id s.entries_by_id ≡ mem? id ids

pub initial-Tracks : Tracks initial 0 []
unfolding initial get
initial-Tracks = record { count = refl; used = λ id. refl; there = λ id. refl }

known-target :
    (s : SessionState) (n : ℕ) (ids : List String) (leaf : Option String)
    → Tracks s n ids
    → known ids leaf ≡ true
    → target_exists s leaf ≡ true
known-target s n ids none t h = refl
known-target s n ids (some id) t h = t.there id ∙ h

write_entry-Tracks :
    (s : SessionState) (n : ℕ) (ids : List String) (e : Entry)
    → Tracks s n ids
    → e.seq ≡ suc n
    → Tracks (write_entry s none e) (suc n) (e.id ∷ ids)
unfolding write_entry
write_entry-Tracks s n ids e t seq = record {
  count = seq;
  used = λ id. rw (t.used id) refl;
  there = λ id. at id (str_eq e.id id) (get-put e.id id e s.entries_by_id);
}
  where
    at :
        (id : String) (b : Bool)
        → get id (put e.id e s.entries_by_id) ≡ (if b then some e else get id s.entries_by_id)
        → has id (put e.id e s.entries_by_id) ≡ (if b then true else mem? id ids)
    at id true h = rw h refl
    at id false h = rw h (t.there id)

numbered :
    (s : SessionState) (n seq : ℕ) {ids : List String}
    → Tracks s n ids
    → seq ≡ suc n
    → (seq == (s.sequence + 1)) ≡ true
numbered s n seq t h = (==_iff seq (s.sequence + 1)).1 (omega (arith, t.count))

-- A write that leaves the identifiers alone.
renumbered-Tracks :
    (s u : SessionState) (n : ℕ) (ids : List String)
    → Tracks s n ids
    → u.sequence ≡ suc n
    → ((id : String) → mem? id u.used_ids ≡ mem? id s.used_ids)
    → ((id : String) → has id u.entries_by_id ≡ has id s.entries_by_id)
    → Tracks u (suc n) ids
renumbered-Tracks s u n ids t count used there = record {
  count = count;
  used = λ id. used id ∙ t.used id;
  there = λ id. there id ∙ t.there id;
}

-- A mutation that fits is accepted, and the next state is described in turn.
apply_mutation-Fits :
    (s : SessionState) (n : ℕ) (ids : List String) (m : SessionMutation)
    → Tracks s n ids
    → mutation_seq_of m ≡ suc n
    → Fits ids m
    → (t : SessionState) × (apply_mutation s m ≡ ok t) × Tracks t (suc n) (ids_after ids m)
unfolding apply_mutation next_sequence write_lane write_name write_label apply_lane apply_label
    apply_entry
apply_mutation-Fits s n ids (SessionMutation.entry none e) t seq (_, unused, parent) = (
  write_entry s none e,
  rw (numbered s n e.seq t seq, unused_id, known-target s n ids e.parent_id t parent, apply_entry)
      refl,
  write_entry-Tracks s n ids e t seq,
)
  where
    unused_id : mem? e.id s.used_ids ≡ false
    unused_id = t.used e.id ∙ unused
apply_mutation-Fits s n ids (SessionMutation.entry (some lane) e) t seq (h, _, _) = cc
apply_mutation-Fits s n ids (SessionMutation.lane_record r) t seq fits = cc
apply_mutation-Fits s n ids (SessionMutation.lane seq lane leaf) t h fits = (
  write_lane s seq lane leaf,
  rw (numbered s n seq t h, known-target s n ids leaf t fits, apply_lane) refl,
  renumbered-Tracks s (write_lane s seq lane leaf) n ids t h (λ id. refl) (λ id. refl),
)
apply_mutation-Fits s n ids (SessionMutation.name seq name) t h fits = (
  write_name s seq name,
  rw (numbered s n seq t h) refl,
  renumbered-Tracks s (write_name s seq name) n ids t h (λ id. refl) (λ id. refl),
)
apply_mutation-Fits s n ids (SessionMutation.label seq target label) t h fits = (
  write_label s seq target label,
  rw (numbered s n seq t h, t.there target ∙ fits, apply_label) refl,
  renumbered-Tracks s (write_label s seq target label) n ids t h (λ id. refl) (λ id. refl),
)

-- A log that fits is replayed without an error.
pub replay-total :
    (s : SessionState) (n : ℕ) (ids : List String) (ms : List SessionMutation)
    → Tracks s n ids
    → Replayable n ids ms
    → (t : SessionState) × (replay s ms ≡ ok t)
unfolding replay
replay-total s n ids [] t h = (s, refl)
replay-total s n ids (m ∷ ms) t (seq, fits, h) =
    let (u, accepted, tracked) = apply_mutation-Fits s n ids m t seq fits in
    let (last, rest) = replay-total u (suc n) (ids_after ids m) ms tracked h in
    (last, rw accepted rest)

-- The entries of a log.
abbrev pub entries_of : List SessionMutation → List Entry
entries_of [] = []
entries_of (SessionMutation.entry lane e ∷ ms) = e ∷ entries_of ms
entries_of (_ ∷ ms) = entries_of ms

entries-apply_kind :
    (s t : SessionState) (m : SessionMutation)
    → apply_kind s m ≡ ok t
    → t.entries ≡ s.entries ++ entries_of (m ∷ [])
unfolding write_entry write_record write_lane write_name write_label
entries-apply_kind s t (SessionMutation.entry at e) h =
    ap (λ (u : SessionState). u.entries) (sym (apply_entry-eq-ok s t at e h).3)
entries-apply_kind s t (SessionMutation.lane_record r) h =
    rw (append-nil s.entries)
      (ap (λ (u : SessionState). u.entries) (sym (apply_record-eq-ok s t r h).2))
entries-apply_kind s t (SessionMutation.lane seq name leaf) h =
    rw (append-nil s.entries)
      (ap (λ (u : SessionState). u.entries) (sym (apply_lane-eq-ok s t seq name leaf h).1))
entries-apply_kind s t (SessionMutation.name seq text) h =
    rw (append-nil s.entries) (ap (λ (u : SessionState). u.entries) (sym (ok_injective h)))
entries-apply_kind s t (SessionMutation.label seq target text) h =
    rw (append-nil s.entries)
      (ap (λ (u : SessionState). u.entries) (sym (apply_label-eq-ok s t seq target text h).1))

pub entries_of-append :
    (xs ys : List SessionMutation) → entries_of (xs ++ ys) ≡ entries_of xs ++ entries_of ys
entries_of-append [] ys = refl
entries_of-append (SessionMutation.entry lane e ∷ xs) ys = ap (◌∷◌ e) (entries_of-append xs ys)
entries_of-append (SessionMutation.lane_record r ∷ xs) ys = entries_of-append xs ys
entries_of-append (SessionMutation.lane seq lane leaf ∷ xs) ys = entries_of-append xs ys
entries_of-append (SessionMutation.name seq name ∷ xs) ys = entries_of-append xs ys
entries_of-append (SessionMutation.label seq target label ∷ xs) ys = entries_of-append xs ys

-- A replay adds the entries of the log.
pub replay-entries :
    (s t : SessionState) (ms : List SessionMutation)
    → replay s ms ≡ ok t
    → t.entries ≡ s.entries ++ entries_of ms
unfolding replay
replay-entries s t [] h =
    ap (λ (u : SessionState). u.entries) (sym (ok_injective h)) ∙ sym (append-nil s.entries)
replay-entries s t (m ∷ ms) h =
    let (u, accepted, rest) = >>=-eq-ok (apply_mutation s m) _ h in
    let (_, written) = apply_mutation-eq-ok s u m accepted in
    replay-entries u t ms rest
    ∙ ap (λ es. es ++ entries_of ms) (entries-apply_kind s u m written)
    ∙ append_assoc s.entries (entries_of (m ∷ [])) (entries_of ms)
    ∙ ap (◌++◌ s.entries) (sym (entries_of-append (m ∷ []) ms))
