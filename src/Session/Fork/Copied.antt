-- ===== src/Session/Fork/Copied.antt =====
-- session-state.ts: what a fork copies. The entries of a branch, the root first, stand in order, and
-- so do all entries of a session.
use saku.Base.{
  ℕ, ◌≤◌, ◌<◌, String, true, false, some, List, [], ◌∷◌, ◌++◌, reverse, ◌≡◌, refl, sym, ap, ◌∙◌,
  subst, mem?, str_eq, arith, All, All-map, eq_iff, filter, reverse-cons, Bool-cases, inl, inr,
}
use saku.Base.Map.{get}
use saku.Session.Types.{Entry, ok}
use saku.Session.State.{SessionState}
use saku.Session.Invariant.{IsValid, ParentBelow}
use saku.Session.Query.{find_entries, matches_entry_query, ordered}
use saku.Session.Query.Laws.{find_entries-eq-filter}
use saku.Session.Walk.{no_bounds, find_entries_on_branch, reached_bound}
use saku.Session.Walk.Total.{PathToRoot, root, step, cut_at}
use saku.Session.Walk.Branch.{find_entries_on_branch-eq-filter}
use saku.Session.Replayable.{known}
use saku.Session.Fork.{oldest_first}
use saku.Session.Fork.Ordered.{InOrder, InOrder-append, ids_behind, ids_behind-append}

filter-oldest_first : (es : List Entry) → filter (matches_entry_query oldest_first) es ≡ es
unfolding matches_entry_query
filter-oldest_first [] = refl
filter-oldest_first (e ∷ es) = ap (◌∷◌ e) (filter-oldest_first es)

-- `findEntries({ order: "oldestFirst" })` is the list of all entries.
pub find_entries-oldest_first : (s : SessionState) → find_entries s oldest_first ≡ ok s.entries
unfolding ordered
find_entries-oldest_first s =
    find_entries-eq-filter s oldest_first refl ∙ ap ok (filter-oldest_first s.entries)

cut_at-unbounded : (path : List Entry) → cut_at no_bounds path ≡ path
unfolding reached_bound
cut_at-unbounded [] = refl
cut_at-unbounded (x ∷ xs) = ap (◌∷◌ x) (cut_at-unbounded xs)

-- `findEntriesOnBranch({ order: "oldestFirst", start })` is the path from the root.
pub find_entries_on_branch-oldest_first :
    (s : SessionState) (start : String) (e : Entry)
    → IsValid s
    → get start s.entries_by_id ≡ some e
    → (path : List Entry) × PathToRoot s.entries_by_id e path
      × (find_entries_on_branch s oldest_first no_bounds start ≡ ok (reverse path))
find_entries_on_branch-oldest_first s start e v found =
    let (path, is_path, walked) =
      find_entries_on_branch-eq-filter s oldest_first no_bounds start e v found refl in
    (
      path,
      is_path,
      walked
          ∙ ap (λ es. ok (filter (matches_entry_query oldest_first) es))
              (cut_at-unbounded (reverse path))
          ∙ ap ok (filter-oldest_first (reverse path)),
    )

module _ (s : SessionState) (v : IsValid s) where
  -- An entry of the session with a sequence number up to this one.
  abbrev UpTo : ℕ → Entry → Type 0
  UpTo n e = (get e.id s.entries_by_id ≡ some e) × (e.seq ≤ n)

  -- An identifier of none of these entries.
  not_behind :
      (e : Entry) (n : ℕ) (es : List Entry)
      → get e.id s.entries_by_id ≡ some e
      → n < e.seq
      → All (UpTo n) es
      → mem? e.id (ids_behind [] (reverse es)) ≡ false
  not_behind e n [] found below h = refl
  not_behind e n (x ∷ es) found below ((there, up), h) =
      subst (λ xs. mem? e.id (ids_behind [] xs) ≡ false) (sym (reverse-cons x es))
        (rw (ids_behind-append [] (reverse es) (x ∷ [])) (elim (Bool-cases (str_eq x.id e.id)) [
          | inl same ↦ absurd (omega (arith, itself ((eq_iff x.id e.id).0 same)))
          | inr other ↦ rw other (not_behind e n es found below h)
        ]))
    where
      itself : x.id ≡ e.id → x.seq ≡ e.seq
      itself same = ground (arith, same)

  -- A path in order: its entries are the session's, and its first entry is known behind it.
  path-InOrder :
      (e : Entry) (path : List Entry)
      → get e.id s.entries_by_id ≡ some e
      → PathToRoot s.entries_by_id e path
      → InOrder [] (reverse path)
        × All (UpTo e.seq) path
        × (mem? e.id (ids_behind [] (reverse path)) ≡ true)
  path-InOrder e path found (root orphan) = (
    (refl, subst (λ p. known [] p ≡ true) (sym orphan) refl, tt),
    ((found, omega arith), tt),
    rw ((eq_iff e.id e.id).1 refl) refl,
  )
  path-InOrder e path found (step {parent} {rest} {p} parented there is_path) =
      let (q, at_p, below) =
        subst (λ t. ParentBelow s.entries_by_id t e.seq) parented (v.rooted e.id found) in
      let same : q ≡ parent = cc in
      let lower : parent.seq < e.seq = subst (λ (x : Entry). x.seq < e.seq) same below in
      let named : parent.id ≡ p = v.named p there in
      let there' : get parent.id s.entries_by_id ≡ some parent =
        subst (λ t. get t s.entries_by_id ≡ some parent) (sym named) there in
      let (ordered, up, last) = path-InOrder parent rest there' is_path in
      let known_parent : known (ids_behind [] (reverse rest)) e.parent_id ≡ true =
        subst (λ t. known (ids_behind [] (reverse rest)) t ≡ true) (ap some named ∙ sym parented)
          last in
      let whole = sym (reverse-cons e rest) in
      let head : mem? e.id (ids_behind [] (reverse rest ++ e ∷ [])) ≡ true =
        rw (ids_behind-append [] (reverse rest) (e ∷ []), (eq_iff e.id e.id).1 refl) refl in
      (
        subst (InOrder []) whole (
            InOrder-append [] (reverse rest) (e ∷ []) ordered
              (not_behind e parent.seq rest found lower up, known_parent, tt)),
        (
          (found, omega arith),
          All-map (λ x (at_x, under). (at_x, omega (arith, under, lower))) rest up,
        ),
        subst (λ es. mem? e.id (ids_behind [] es) ≡ true) whole head,
      )

  -- The copy of a branch stands in order and has the target.
  pub branch-InOrder :
      (target : String) (e : Entry)
      → get target s.entries_by_id ≡ some e
      → (copied : List Entry) × (find_entries_on_branch s oldest_first no_bounds target ≡ ok copied)
        × InOrder [] copied
        × (mem? target (ids_behind [] copied) ≡ true)
  branch-InOrder target e found =
      let (path, is_path, walked) = find_entries_on_branch-oldest_first s target e v found in
      let named = v.named target found in
      let at_own : get e.id s.entries_by_id ≡ some e =
        subst (λ t. get t s.entries_by_id ≡ some e) (sym named) found in
      let (ordered, _, last) = path-InOrder e path at_own is_path in
      (
        reverse path,
        walked,
        ordered,
        subst (λ t. mem? t (ids_behind [] (reverse path)) ≡ true) named last,
      )
