-- ===== src/Session/Fork/Numbered.antt =====
-- session-state.ts: the copies that a fork makes are numbered on and fit what was copied before.
use saku.Base.{
  ℕ, suc, ◌+◌, String, Bool, true, false, Option, none, some, List, [], ◌∷◌, ◌++◌, ◌≡◌, refl, sym,
  ap, ◌∙◌, subst, mem?, str_eq, if◌then◌else◌, All, length, Option-cases, inl, inr, eq_iff,
}
use saku.Base.Map.{Map, get}
use saku.Session.Types.{Entry, SessionMutation}
use saku.Session.Replayable.{
  known, Replayable, all_after, entries_of, Replayable-append, entries_of-append,
}
use saku.Session.Fork.{then_numbered, copy_entries, copy_lanes, copy_name, copy_labels}
use saku.Session.Fork.Ordered.{InOrder, ids_behind}

-- What holds of the numbered lists holds of the two one after the other.
pub then_numbered-Replayable :
    (n : ℕ) (ids ids' : List String) (ms : List SessionMutation) (next : ℕ → List SessionMutation)
    → Replayable n ids ms
    → all_after ids ms ≡ ids'
    → ((m : ℕ) → Replayable m ids' (next m))
    → Replayable n ids (then_numbered n ms next)
then_numbered-Replayable n ids ids' ms next h after k =
    Replayable-append n ids ms (next (n + length ms)) h (
      subst (λ i. Replayable (n + length ms) i (next (n + length ms))) (sym after)
        (k (n + length ms)))

pub entries_of-then_numbered :
    (n : ℕ) (ms : List SessionMutation) (next : ℕ → List SessionMutation) {xs ys : List Entry}
    → entries_of ms ≡ xs
    → ((m : ℕ) → entries_of (next m) ≡ ys)
    → entries_of (then_numbered n ms next) ≡ xs ++ ys
entries_of-then_numbered n ms next {xs} {ys} h k =
    entries_of-append ms (next (n + length ms))
    ∙ ap (λ es. es ++ entries_of (next (n + length ms))) h
    ∙ ap (◌++◌ xs) (k (n + length ms))

module _ (n : ℕ) (ids : List String) where
  pub copy_name-Replayable : (name : Option String) → Replayable n ids (copy_name n name)
  copy_name-Replayable none = tt
  copy_name-Replayable (some name) = (refl, tt, tt)

  pub all_after-copy_name : (name : Option String) → all_after ids (copy_name n name) ≡ ids
  all_after-copy_name none = refl
  all_after-copy_name (some name) = refl

pub entries_of-copy_name : (n : ℕ) (name : Option String) → entries_of (copy_name n name) ≡ []
entries_of-copy_name n none = refl
entries_of-copy_name n (some name) = refl

-- Entries in order fit one after the other, whatever numbers they had.
pub copy_entries-Replayable :
    (n : ℕ) (ids : List String) (es : List Entry)
    → InOrder ids es
    → Replayable n ids (copy_entries n es)
unfolding copy_entries
copy_entries-Replayable n ids [] h = tt
copy_entries-Replayable n ids (e ∷ es) (new, parent, h) =
    (refl, (refl, new, parent), copy_entries-Replayable (suc n) (e.id ∷ ids) es h)

pub all_after-copy_entries :
    (n : ℕ) (ids : List String) (es : List Entry)
    → all_after ids (copy_entries n es) ≡ ids_behind ids es
unfolding copy_entries
all_after-copy_entries n ids [] = refl
all_after-copy_entries n ids (e ∷ es) = all_after-copy_entries (suc n) (e.id ∷ ids) es

-- The copied entries, numbered from n + 1.
abbrev pub renumbered : ℕ → List Entry → List Entry
renumbered n [] = []
renumbered n (e ∷ es) = record e { seq = suc n } ∷ renumbered (suc n) es

pub entries_of-copy_entries :
    (n : ℕ) (es : List Entry) → entries_of (copy_entries n es) ≡ renumbered n es
unfolding copy_entries
entries_of-copy_entries n [] = refl
entries_of-copy_entries n (e ∷ es) =
    ap (λ rest. record e { seq = suc n } ∷ rest) (entries_of-copy_entries (suc n) es)

pub copy_lanes-Replayable :
    (n : ℕ) (ids : List String) (lanes : Map (Option String))
    → All (λ (lane : String × Option String). known ids lane.1 ≡ true) lanes
    → Replayable n ids (copy_lanes n lanes)
unfolding copy_lanes
copy_lanes-Replayable n ids [] h = tt
copy_lanes-Replayable n ids ((lane, leaf) ∷ lanes) (there, h) =
    (refl, there, copy_lanes-Replayable (suc n) ids lanes h)

pub all_after-copy_lanes :
    (n : ℕ) (ids : List String) (lanes : Map (Option String))
    → all_after ids (copy_lanes n lanes) ≡ ids
unfolding copy_lanes
all_after-copy_lanes n ids [] = refl
all_after-copy_lanes n ids ((lane, leaf) ∷ lanes) = all_after-copy_lanes (suc n) ids lanes

pub entries_of-copy_lanes :
    (n : ℕ) (lanes : Map (Option String)) → entries_of (copy_lanes n lanes) ≡ []
unfolding copy_lanes
entries_of-copy_lanes n [] = refl
entries_of-copy_lanes n ((lane, leaf) ∷ lanes) = entries_of-copy_lanes (suc n) lanes

pub copy_labels-Replayable :
    (n : ℕ) (ids : List String) (labels : Map String) (es : List Entry)
    → All (λ (e : Entry). mem? e.id ids ≡ true) es
    → Replayable n ids (copy_labels n labels es)
unfolding copy_labels
copy_labels-Replayable n ids labels [] h = tt
copy_labels-Replayable n ids labels (e ∷ es) (there, h) = elim (Option-cases (get e.id labels)) [
  | inl absent ↦ rw (absent, copy_labels) (copy_labels-Replayable n ids labels es h)
  | inr (text, found) ↦
      rw (found, copy_labels) (refl, there, copy_labels-Replayable (suc n) ids labels es h)
]

pub entries_of-copy_labels :
    (n : ℕ) (labels : Map String) (es : List Entry) → entries_of (copy_labels n labels es) ≡ []
unfolding copy_labels
entries_of-copy_labels n labels [] = refl
entries_of-copy_labels n labels (e ∷ es) = elim (Option-cases (get e.id labels)) [
  | inl absent ↦ rw (absent, copy_labels) (entries_of-copy_labels n labels es)
  | inr (text, found) ↦ rw (found, copy_labels) (entries_of-copy_labels (suc n) labels es)
]

mem?-behind :
    (id : String) (ids : List String) (es : List Entry)
    → mem? id ids ≡ true
    → mem? id (ids_behind ids es) ≡ true
mem?-behind id ids [] h = h
mem?-behind id ids (e ∷ es) h = mem?-behind id (e.id ∷ ids) es (at (str_eq e.id id))
  where
    at : (b : Bool) → (if b then true else mem? id ids) ≡ true
    at true = refl
    at false = h

pub All-behind :
    (ids : List String) (es : List Entry)
    → All (λ (e : Entry). mem? e.id (ids_behind ids es) ≡ true) es
All-behind ids [] = tt
All-behind ids (e ∷ es) = (
  mem?-behind e.id (e.id ∷ ids) es (rw ((eq_iff e.id e.id).1 refl) refl),
  All-behind (e.id ∷ ids) es,
)
