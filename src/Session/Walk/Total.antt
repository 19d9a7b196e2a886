-- ===== src/Session/Walk/Total.antt =====
-- In a state that satisfies the invariant the walk follows the parents to the root: it never meets
-- a cycle or a missing entry, and its fuel is enough.
use saku.Base.{
  ℕ, zero, suc, ◌≤◌, ◌<◌, String, false, none, some, List, [], ◌∷◌, ◌≡◌, refl, sym, ap, ◌∙◌, subst,
  inl, inr, Bool-cases, Option-cases, All, mem?, str_eq, eq_iff, arith, if◌then◌else◌,
}
use saku.Base.Map.{Map, get}
use saku.Session.Types.{Entry, ok}
use saku.Session.State.{SessionState}
use saku.Session.Invariant.{IsValid, ParentBelow}
use saku.Session.Walk.{
  BranchBounds, no_bounds, Walk, done, visit, reached_bound, walk_from, walk_to_root, spread,
}

-- The entries from one up to its root, each the parent of the one before it.
pub data PathToRoot (by_id : Map Entry) : Entry → List Entry → Type 0 where
  root : {e : Entry} → e.parent_id ≡ none → PathToRoot by_id e (e ∷ [])
  step :
      {e parent : Entry} {rest : List Entry} {p : String}
      → e.parent_id ≡ some p
      → get p by_id ≡ some parent
      → PathToRoot by_id parent rest
      → PathToRoot by_id e (e ∷ rest)

-- A stream that visits these entries and ends well.
abbrev pub visits : List Entry → Walk
visits [] = done
visits (x ∷ xs) = visit x (visits xs)

-- A path cut after the first entry at a bound.
abbrev pub cut_at : BranchBounds → List Entry → List Entry
cut_at bounds [] = []
cut_at bounds (x ∷ xs) = if reached_bound bounds x then x ∷ [] else x ∷ cut_at bounds xs

module _ (s : SessionState) (v : IsValid s) (bounds : BranchBounds) where
  abbrev Later : ℕ → String → Type 0
  Later n id = (x : Entry) × (get id s.entries_by_id ≡ some x) × (n < x.seq)

  -- Only later entries were visited, so the entry at hand was not.
  not_visited :
      (e : Entry) (visited : List String)
      → get e.id s.entries_by_id ≡ some e
      → All (Later e.seq) visited
      → mem? e.id visited ≡ false
  not_visited e [] found h = refl
  not_visited e (y ∷ visited) found ((x, there, later), h) = elim (Bool-cases (str_eq y e.id)) [
    | inl same ↦ absurd (omega (arith, itself ((eq_iff y e.id).0 same)))
    | inr other ↦ rw other (not_visited e visited found h)
  ]
    where
      itself : y ≡ e.id → x.seq ≡ e.seq
      itself same = ground (arith, same)

  Later-mono :
      (n m : ℕ) (visited : List String) → m ≤ n → All (Later n) visited → All (Later m) visited
  Later-mono n m [] h k = tt
  Later-mono n m (y ∷ visited) h ((x, there, later), k) =
      ((x, there, omega arith), Later-mono n m visited h k)

  walk_from_path :
      (fuel : ℕ) (visited : List String) (e : Entry)
      → e.seq < fuel
      → get e.id s.entries_by_id ≡ some e
      → All (Later e.seq) visited
      → (path : List Entry) × PathToRoot s.entries_by_id e path
        × (walk_from s.entries_by_id bounds fuel visited e ≡ visits (cut_at bounds path))
  unfolding walk_from
  walk_from_path zero visited e h found later = elim h [ ]
  walk_from_path (suc fuel) visited e h found later =
      let unvisited = not_visited e visited found later in
      elim (Option-cases e.parent_id) [
        | inl orphan ↦ (e ∷ [], root orphan, ground (arith, unvisited))
        | inr (p, parented) ↦
            let (q, there, below) =
              subst (λ t. ParentBelow s.entries_by_id t e.seq) parented (v.rooted e.id found) in
            let (path, is_path, walked) =
              walk_from_path fuel (e.id ∷ visited) q (omega arith)
                (subst (λ t. get t s.entries_by_id ≡ some q) (sym (v.named p there)) there)
                ((e, found, below), Later-mono e.seq q.seq visited (omega arith) later) in
            (e ∷ path, step parented there is_path, ground (arith, unvisited, walked))
      ]

  -- In a state that satisfies the invariant, from an entry that is there, the walk visits its path to
  -- the root, up to the first bound, and ends well: no cycle, no missing parent, no lack of fuel.
  pub walk_to_root_path :
      (id : String) (e : Entry)
      → get id s.entries_by_id ≡ some e
      → (path : List Entry) × PathToRoot s.entries_by_id e path
        × (walk_to_root s id bounds ≡ visits (cut_at bounds path))
  unfolding walk_to_root
  walk_to_root_path id e found =
      let (path, is_path, walked) =
        walk_from_path (suc s.sequence) [] e (omega (arith, v.bounded id found))
          (subst (λ t. get t s.entries_by_id ≡ some e) (sym (v.named id found)) found) tt in
      (path, is_path, rw (found, walk_to_root) walked)

cut_at-no_bounds : (path : List Entry) → cut_at no_bounds path ≡ path
unfolding reached_bound
cut_at-no_bounds [] = refl
cut_at-no_bounds (x ∷ xs) = ap (◌∷◌ x) (cut_at-no_bounds xs)

pub spread-visits : (path : List Entry) → spread (visits path) ≡ ok path
unfolding spread
spread-visits [] = refl
spread-visits (x ∷ xs) = rw (spread-visits xs)

pub spread-cut_at : (path : List Entry) → spread (visits (cut_at no_bounds path)) ≡ ok path
spread-cut_at path = rw (cut_at-no_bounds path) (spread-visits path)

-- An entry has one path only.
pub PathToRoot-unique :
    {by_id : Map Entry} {e : Entry} {xs ys : List Entry}
    → PathToRoot by_id e xs
    → PathToRoot by_id e ys
    → xs ≡ ys
PathToRoot-unique (root a) (root b) = refl
PathToRoot-unique (root a) (step b there q) = absurd (none_some (sym a ∙ b))
  where
    none_some : {p : String} → ¬ (none ≡ some p)
    none_some h = cc
PathToRoot-unique (step a there p) (root b) = absurd (none_some (sym b ∙ a))
  where
    none_some : {p : String} → ¬ (none ≡ some p)
    none_some h = cc
PathToRoot-unique {by_id} (step {e} {rest = xs} a there p) (step {rest = ys} b there' q) =
    ap (◌∷◌ e) (PathToRoot-unique p (subst (λ t. PathToRoot by_id t ys) (cc) q))
