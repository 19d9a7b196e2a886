-- ===== src/Session/Invariant.antt =====
-- The invariant of a session state: every mutation that `apply_mutation` accepts keeps it.
pub mod EntryArm
pub mod OtherArms
pub mod Replay
use saku.Base.{
  ℕ, zero, suc, ◌+◌, ◌≤◌, ◌<◌, String, Bool, true, false, not, Option, none, some, List, [], ◌∷◌,
  ◌++◌, ◌≡◌, ◌∙◌, refl, sym, ap, ◌⊎◌, inl, inr, ◌==◌, ==_iff, if◌then◌else◌, Bool-cases,
  Option-cases, is_some, mem?, All, All-append, arith, str_eq, eq_iff, map, subst, add-one,
}
use saku.Base.Map.{
  Map, get, put, remove, has, get-put, get-put_cases, get-put_fresh, get-put_self, has-put,
  get-remove-some,
}
use saku.Session.Types.{Entry, LaneRecord, SessionMutation, LogItem, item_seq, Result, ok, err}
use saku.Session.State.{
  SessionState, initial, target_exists, move_leaf, write_entry, apply_entry, write_record,
  apply_record, write_lane, apply_lane, write_name, set_label, write_label, apply_label, apply_kind,
  apply_mutation, replay, mutation_seq_of, next_sequence, chains,
}

-- The parent is null, or an entry of the map with a smaller sequence number.
abbrev pub ParentBelow : Map Entry → Option String → ℕ → Type 0
ParentBelow m none n = Unit
ParentBelow m (some p) n = (q : Entry) × (get p m ≡ some q) × (q.seq < n)

-- 1, 2, …, n
abbrev pub up_to : ℕ → List ℕ
up_to zero = []
up_to (suc n) = up_to n ++ suc n ∷ []

pub record IsValid (s : SessionState) : Type 0 where
  pub used : (id : String) {e : Entry} → get id s.entries_by_id ≡ some e → mem? id s.used_ids ≡ true
  pub named : (id : String) {e : Entry} → get id s.entries_by_id ≡ some e → e.id ≡ id
  pub bounded : (id : String) {e : Entry} → get id s.entries_by_id ≡ some e → e.seq ≤ s.sequence
  pub rooted :
      (id : String) {e : Entry}
      → get id s.entries_by_id ≡ some e
      → ParentBelow s.entries_by_id e.parent_id e.seq
  pub listed : All (λ (e : Entry). get e.id s.entries_by_id ≡ some e) s.entries
  pub lanes_live :
      (lane : String) {leaf : Option String}
      → get lane s.lanes ≡ some leaf
      → target_exists s leaf ≡ true
  pub labels_live :
      (id : String) {label : String} → get id s.labels ≡ some label → has id s.entries_by_id ≡ true
  pub main_lane : has "main" s.lanes ≡ true
  pub consecutive : map item_seq s.log ≡ up_to s.sequence

pub initial-IsValid : IsValid initial
unfolding initial get
initial-IsValid = record {
  used = λ id h. cc;
  named = λ id h. cc;
  bounded = λ id h. cc;
  rooted = λ id h. cc;
  listed = tt;
  lanes_live = λ lane h. main_only lane h;
  labels_live = λ id h. cc;
  main_lane = ground (arith, eq_iff "main" "main");
  consecutive = refl;
}
  where
    main_only :
        (lane : String) {leaf : Option String}
        → get lane (("main", none) ∷ []) ≡ some leaf
        → target_exists initial leaf ≡ true
    main_only lane {leaf} h = ground arith

pub ParentBelow-put :
    (k : String) (v : Entry) (m : Map Entry) (parent : Option String) (n : ℕ)
    → get k m ≡ none
    → ParentBelow m parent n
    → ParentBelow (put k v m) parent n
ParentBelow-put k v m none n fresh h = tt
ParentBelow-put k v m (some p) n fresh (q, found, below) =
    (q, get-put_fresh k p v m fresh found, below)

pub listed-put :
    (k : String) (v : Entry) (m : Map Entry) (es : List Entry)
    → get k m ≡ none
    → All (λ (e : Entry). get e.id m ≡ some e) es
    → All (λ (e : Entry). get e.id (put k v m) ≡ some e) es
listed-put k v m [] fresh h = tt
listed-put k v m (e ∷ es) fresh (h, hs) =
    (get-put_fresh k e.id v m fresh h, listed-put k v m es fresh hs)

map-append_one {ℓ κ} :
    {A : Type ℓ} {B : Type κ} (f : A → B) (xs : List A) (x : A)
    → map f (xs ++ x ∷ []) ≡ map f xs ++ f x ∷ []
map-append_one f [] x = refl
map-append_one f (y ∷ xs) x = ap (◌∷◌ (f y)) (map-append_one f xs x)

-- One more item, with the next number, keeps the numbers consecutive.
pub consecutive-append :
    (log : List LogItem) (item : LogItem) (n m : ℕ)
    → map item_seq log ≡ up_to n
    → item_seq item ≡ m
    → m ≡ n + 1
    → map item_seq (log ++ item ∷ []) ≡ up_to m
consecutive-append log item n m h e next =
    let same : m ≡ suc n = omega arith in rw (map-append_one item_seq log item, h, e, same) refl

module _ (s : SessionState) (v : IsValid s) where
  pub fresh_id : (id : String) → mem? id s.used_ids ≡ false → get id s.entries_by_id ≡ none
  fresh_id id h = elim (Option-cases (get id s.entries_by_id)) [
    | inl e ↦ e
    | inr (e, found) ↦ absurd (false_true (sym h ∙ v.used id found))
  ]
    where
      false_true : ¬ (false ≡ true)
      false_true e = cc

  pub target_entry :
      (parent : Option String)
      → target_exists s parent ≡ true
      → ParentBelow s.entries_by_id parent (suc s.sequence)
  target_entry none h = tt
  target_entry (some p) h = elim (Option-cases (get p s.entries_by_id)) [
    | inl e ↦ absurd (absent p e h)
    | inr (q, found) ↦ (q, found, omega (arith, v.bounded p found))
  ]
    where
      absent : (p : String) → get p s.entries_by_id ≡ none → ¬ (has p s.entries_by_id ≡ true)
      absent p e h = ground arith
