-- ===== src/Session/Fork/Ordered.antt =====
-- session-state.ts: the list of entries of a session. Every entry stands behind its parent, no
-- identifier stands twice, and the list has the entries of the map.
use saku.Base.{
  String, Bool, true, false, Option, none, some, List, [], ◌∷◌, ◌++◌, ◌≡◌, refl, ap, ◌∙◌, subst,
  mem?, str_eq, if◌then◌else◌, is_some, All, All-map,
}
use saku.Base.Map.{get, put, has, get-put, has-put, has-put_self}
use saku.Base.Unique.{All-put}
use saku.Session.Types.{Entry, SessionMutation, ok, >>=-eq-ok, ok_injective}
use saku.Session.State.{
  SessionState, initial, write_entry, write_record, write_lane, write_name, write_label, apply_kind,
  apply_mutation, replay, target_exists, move_leaf,
}
use saku.Session.Accepted.{
  apply_entry-eq-ok, apply_record-eq-ok, apply_lane-eq-ok, apply_label-eq-ok, apply_mutation-eq-ok,
}
use saku.Session.Invariant.{IsValid, fresh_id}
use saku.Session.Invariant.Replay.{apply_mutation-IsValid}
use saku.Session.Invariant.{initial-IsValid}
use saku.Session.Replayable.{known}

-- The identifiers of a list of entries, the last one first.
abbrev pub ids_behind : List String → List Entry → List String
ids_behind ids [] = ids
ids_behind ids (e ∷ es) = ids_behind (e.id ∷ ids) es

-- Behind these identifiers, each entry is new and its parent is known.
abbrev pub InOrder : List String → List Entry → Type 0
InOrder ids [] = Unit
InOrder ids (e ∷ es) =
    (mem? e.id ids ≡ false) × (known ids e.parent_id ≡ true) × InOrder (e.id ∷ ids) es

pub InOrder-append :
    (ids : List String) (xs ys : List Entry)
    → InOrder ids xs
    → InOrder (ids_behind ids xs) ys
    → InOrder ids (xs ++ ys)
InOrder-append ids [] ys h k = k
InOrder-append ids (x ∷ xs) ys (new, parent, h) k =
    (new, parent, InOrder-append (x.id ∷ ids) xs ys h k)

pub ids_behind-append :
    (ids : List String) (xs ys : List Entry)
    → ids_behind ids (xs ++ ys) ≡ ids_behind (ids_behind ids xs) ys
ids_behind-append ids [] ys = refl
ids_behind-append ids (x ∷ xs) ys = ids_behind-append (x.id ∷ ids) xs ys

-- The leaf of a lane is null or an entry.
abbrev pub HasTarget : SessionState → String × Option String → Type 0
HasTarget s lane = target_exists s lane.1 ≡ true

pub record IsOrdered (s : SessionState) : Type 0 where
  pub in_order : InOrder [] s.entries
  pub complete : (id : String) → mem? id (ids_behind [] s.entries) ≡ has id s.entries_by_id
  pub lanes_there : All (HasTarget s) s.lanes

initial-IsOrdered : IsOrdered initial
unfolding initial get
initial-IsOrdered = record { in_order = tt; complete = λ id. refl; lanes_there = (refl, tt) }

pub known-target_exists :
    (s : SessionState) (leaf : Option String)
    → IsOrdered s
    → target_exists s leaf ≡ true
    → known (ids_behind [] s.entries) leaf ≡ true
known-target_exists s none o h = refl
known-target_exists s (some id) o h = o.complete id ∙ h

write_entry-IsOrdered :
    (s : SessionState) (lane : Option String) (e : Entry)
    → IsValid s
    → IsOrdered s
    → mem? e.id s.used_ids ≡ false
    → target_exists s e.parent_id ≡ true
    → IsOrdered (write_entry s lane e)
unfolding write_entry
write_entry-IsOrdered s lane e v o unused parent = record {
  in_order = InOrder-append [] s.entries (e ∷ []) o.in_order (
    o.complete e.id ∙ ap is_some (fresh_id s v e.id unused),
    known-target_exists s e.parent_id o parent,
    tt,
  );
  lanes_there = moved lane (All-map grown s.lanes o.lanes_there);
  complete = λ id.
      rw (ids_behind-append [] s.entries (e ∷ []))
        (at id (str_eq e.id id) (get-put e.id id e s.entries_by_id));
}
  where
    grown : (x : String × Option String) → HasTarget s x → HasTarget (write_entry s lane e) x
    grown (l, none) h = refl
    grown (l, some id) h = has-put e.id id e s.entries_by_id h

    moved :
        (to : Option String)
        → All (HasTarget (write_entry s lane e)) s.lanes
        → All (HasTarget (write_entry s lane e)) (move_leaf to e.id s.lanes)
    moved none h = h
    moved (some l) h =
        All-put (HasTarget (write_entry s lane e)) l (some e.id) s.lanes h
          (has-put_self e.id e s.entries_by_id)

    at :
        (id : String) (b : Bool)
        → get id (put e.id e s.entries_by_id) ≡ (if b then some e else get id s.entries_by_id)
        → (if b then true else mem? id (ids_behind [] s.entries))
          ≡ has id (put e.id e s.entries_by_id)
    at id true h = rw h refl
    at id false h = rw h (o.complete id)

apply_kind-IsOrdered :
    (s t : SessionState) (m : SessionMutation)
    → IsValid s
    → IsOrdered s
    → apply_kind s m ≡ ok t
    → IsOrdered t
unfolding write_record write_lane write_name write_label
apply_kind-IsOrdered s t (SessionMutation.entry lane e) v o h =
    let (unused, _, parent, same) = apply_entry-eq-ok s t lane e h in
    subst IsOrdered same (write_entry-IsOrdered s lane e v o unused parent)
apply_kind-IsOrdered s t (SessionMutation.lane_record r) v o h =
    let (_, _, same) = apply_record-eq-ok s t r h in
    subst IsOrdered same
      (record { in_order = o.in_order; complete = o.complete; lanes_there = o.lanes_there })
apply_kind-IsOrdered s t (SessionMutation.lane seq lane leaf) v o h =
    let (live, same) = apply_lane-eq-ok s t seq lane leaf h in
    subst IsOrdered same (record {
      in_order = o.in_order;
      complete = o.complete;
      lanes_there = All-put (HasTarget s) lane leaf s.lanes o.lanes_there live;
    })
apply_kind-IsOrdered s t (SessionMutation.name seq name) v o h =
    subst IsOrdered (ok_injective h)
      (record { in_order = o.in_order; complete = o.complete; lanes_there = o.lanes_there })
apply_kind-IsOrdered s t (SessionMutation.label seq target label) v o h =
    let (_, same) = apply_label-eq-ok s t seq target label h in
    subst IsOrdered same
      (record { in_order = o.in_order; complete = o.complete; lanes_there = o.lanes_there })

replay-IsOrdered_from :
    (s t : SessionState) (ms : List SessionMutation)
    → IsValid s
    → IsOrdered s
    → replay s ms ≡ ok t
    → IsOrdered t
unfolding replay
replay-IsOrdered_from s t [] v o h = subst IsOrdered (ok_injective h) o
replay-IsOrdered_from s t (m ∷ ms) v o h =
    let (u, accepted, rest) = >>=-eq-ok (apply_mutation s m) _ h in
    let (_, written) = apply_mutation-eq-ok s u m accepted in
    replay-IsOrdered_from u t ms (apply_mutation-IsValid s u m v accepted)
      (apply_kind-IsOrdered s u m v o written) rest

-- The entries of a session that a log replays to stand in order.
pub replay-IsOrdered :
    (t : SessionState) (ms : List SessionMutation) → replay initial ms ≡ ok t → IsOrdered t
replay-IsOrdered t ms h = replay-IsOrdered_from initial t ms initial-IsValid initial-IsOrdered h
