-- ===== src/Session/Invariant/EntryArm.antt =====
-- The entry arm of `applyMutation` keeps the invariant.
use saku.Base.{
  ◌+◌, ◌≤◌, String, true, false, Option, none, some, [], ◌∷◌, ◌≡◌, ◌∙◌, refl, sym, ap, ◌⊎◌, inl,
  inr, mem?, All-append, arith, eq_iff, subst, add-one,
}
use saku.Base.Map.{Map, get, put, has, get-put_cases, get-put_self, has-put}
use saku.Session.Types.{Entry, LogItem}
use saku.Session.State.{SessionState, target_exists, move_leaf, write_entry}
use saku.Session.Invariant.{
  ParentBelow, IsValid, ParentBelow-put, listed-put, consecutive-append, fresh_id, target_entry,
}

module _ (s : SessionState) (v : IsValid s) (lane : Option String) (e : Entry)
    (next : e.seq ≡ s.sequence + 1) (unused : mem? e.id s.used_ids ≡ false)
    (parent : target_exists s e.parent_id ≡ true) where
  by_id : Map Entry
  by_id = put e.id e s.entries_by_id

  by_id_cases :
      (id : String) {x : Entry}
      → get id by_id ≡ some x
      → ((e.id ≡ id) × (e ≡ x)) ⊎ (get id s.entries_by_id ≡ some x)
  unfolding by_id
  by_id_cases id h = get-put_cases e.id id e s.entries_by_id h

  by_id_used :
      (id : String) {x : Entry} → get id by_id ≡ some x → mem? id (e.id ∷ s.used_ids) ≡ true
  by_id_used id h = elim (by_id_cases id h) [
    | inl (same, _) ↦ ground (arith, eq_iff e.id id)
    | inr old ↦ ground (arith, v.used id old)
  ]

  by_id_named : (id : String) {x : Entry} → get id by_id ≡ some x → x.id ≡ id
  by_id_named id h = elim (by_id_cases id h) [
    | inl (same, is_new) ↦ ap (λ (y : Entry). y.id) (sym is_new) ∙ same
    | inr old ↦ v.named id old
  ]

  by_id_bounded : (id : String) {x : Entry} → get id by_id ≡ some x → x.seq ≤ e.seq
  by_id_bounded id h = elim (by_id_cases id h) [
    | inl (_, is_new) ↦ omega (arith, ap (λ (y : Entry). y.seq) is_new)
    | inr old ↦ omega (arith, v.bounded id old)
  ]

  by_id_rooted :
      (id : String) {x : Entry} → get id by_id ≡ some x → ParentBelow by_id x.parent_id x.seq
  unfolding by_id
  by_id_rooted id {x} h =
      let fresh = fresh_id s v e.id unused in
      elim (by_id_cases id h) [
        | inl (_, is_new) ↦
            subst (λ (y : Entry). ParentBelow by_id y.parent_id y.seq) is_new
              (ParentBelow-put e.id e s.entries_by_id e.parent_id e.seq fresh
                (rw next (rw add-one (target_entry s v e.parent_id parent))))
        | inr old ↦ ParentBelow-put e.id e s.entries_by_id x.parent_id x.seq fresh (v.rooted id old)
      ]

  live_put :
      (leaf : Option String)
      → target_exists s leaf ≡ true
      → target_exists (write_entry s lane e) leaf ≡ true
  unfolding write_entry
  live_put none h = refl
  live_put (some id) h = has-put e.id id e s.entries_by_id h

  moved_live :
      (moving : Option String) (l : String) {leaf : Option String}
      → get l (move_leaf moving e.id s.lanes) ≡ some leaf
      → target_exists (write_entry s lane e) leaf ≡ true
  unfolding write_entry
  moved_live none l {leaf} h = live_put leaf (v.lanes_live l h)
  moved_live (some moving) l {leaf} h = elim (get-put_cases moving l (some e.id) s.lanes h) [
    | inl (_, to_new) ↦
        subst (λ t. target_exists (write_entry s lane e) t ≡ true) to_new
          (ground (arith, get-put_self e.id e s.entries_by_id))
    | inr old ↦ live_put leaf (v.lanes_live l old)
  ]

  main_stays : (moving : Option String) → has "main" (move_leaf moving e.id s.lanes) ≡ true
  main_stays none = v.main_lane
  main_stays (some moving) = has-put moving "main" (some e.id) s.lanes v.main_lane

  pub write_entry-IsValid : IsValid (write_entry s lane e)
  unfolding write_entry by_id
  write_entry-IsValid = record {
    used = by_id_used;
    named = by_id_named;
    bounded = by_id_bounded;
    rooted = by_id_rooted;
    listed =
        All-append (λ (x : Entry). get x.id by_id ≡ some x) s.entries (e ∷ [])
          (listed-put e.id e s.entries_by_id s.entries (fresh_id s v e.id unused) v.listed)
          (get-put_self e.id e s.entries_by_id, tt);
    lanes_live = moved_live lane;
    labels_live = λ id h. has-put e.id id e s.entries_by_id (v.labels_live id h);
    main_lane = main_stays lane;
    consecutive =
        consecutive-append s.log (LogItem.entry e) s.sequence e.seq v.consecutive refl next;
  }
