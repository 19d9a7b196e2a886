-- ===== src/Session/Walk/Branch.antt =====
-- `findEntriesOnBranch` against its description: take the path to the root, turn it if asked, cut it
-- at the bound, select, and cut at the limit.
use saku.Base.{
  ℕ, zero, suc, ◌+◌, String, Bool, true, Option, none, some, List, [], ◌∷◌, ◌++◌, reverse, ◌≡◌,
  refl, sym, ap, length, length-append, take, filter, append-nil, append_assoc, arith,
  if◌then◌else◌, inl, inr, Bool-cases,
}
use saku.Base.Map.{get}
use saku.Session.Types.{Entry, ok}
use saku.Session.State.{SessionState}
use saku.Session.Invariant.{IsValid}
use saku.Session.Query.{
  EntryQuery, is_positive, is_oldest_first, limited, matches_entry_query, assert_valid_limit,
}
use saku.Session.Walk.{
  BranchBounds, no_bounds, collect_oldest, collect_newest, find_entries_on_branch,
}
use saku.Session.Walk.Total.{PathToRoot, visits, cut_at, walk_to_root_path, spread-cut_at}

module _ (query : EntryQuery) where
  abbrev passes : Entry → Bool
  passes = matches_entry_query query

  collect_newest_unlimited :
      (results xs : List Entry)
      → query.limit ≡ none
      → collect_newest query results (visits xs) ≡ ok (results ++ filter passes xs)
  unfolding collect_newest
  collect_newest_unlimited results [] h = ap ok (sym (append-nil results))
  collect_newest_unlimited results (x ∷ xs) h = ground (
    arith,
    collect_newest_unlimited results xs,
    collect_newest_unlimited (results ++ x ∷ []) xs,
    append_assoc results (x ∷ []) (filter passes xs),
  )

  collect_newest_limited :
      (n room : ℕ) (results xs : List Entry)
      → query.limit ≡ some n
      → n ≡ length results + suc room
      → collect_newest query results (visits xs)
        ≡ ok (results ++ take (suc room) (filter passes xs))
  unfolding collect_newest
  collect_newest_limited n room results [] l h = ap ok (sym (append-nil results))
  collect_newest_limited n zero results (x ∷ xs) l h =
      ground (arith, collect_newest_limited n zero results xs, length-append results (x ∷ []))
  collect_newest_limited n (suc room) results (x ∷ xs) l h = ground (
    arith,
    collect_newest_limited n (suc room) results xs,
    collect_newest_limited n room (results ++ x ∷ []) xs,
    length-append results (x ∷ []),
    append_assoc results (x ∷ []) (take (suc room) (filter passes xs)),
  )

  collect_newest-eq-limited :
      (xs : List Entry)
      → is_positive query.limit ≡ true
      → collect_newest query [] (visits xs) ≡ ok (limited query.limit (filter passes xs))
  collect_newest-eq-limited xs = at query.limit refl
    where
      at :
          (limit : Option ℕ)
          → query.limit ≡ limit
          → is_positive limit ≡ true
          → collect_newest query [] (visits xs) ≡ ok (limited limit (filter passes xs))
      at none l p = collect_newest_unlimited [] xs l
      at (some zero) l p = cc
      at (some (suc n)) l p = collect_newest_limited (suc n) n [] xs l (omega arith)

  module _ (bounds : BranchBounds) where
    collect_oldest_unlimited :
        (results xs : List Entry)
        → query.limit ≡ none
        → collect_oldest query bounds results xs ≡ results ++ filter passes (cut_at bounds xs)
    unfolding collect_oldest
    collect_oldest_unlimited results [] h = sym (append-nil results)
    collect_oldest_unlimited results (x ∷ xs) h = ground (
      arith,
      collect_oldest_unlimited results xs,
      collect_oldest_unlimited (results ++ x ∷ []) xs,
      append-nil results,
      append_assoc results (x ∷ []) (filter passes (cut_at bounds xs)),
    )

    collect_oldest_limited :
        (n room : ℕ) (results xs : List Entry)
        → query.limit ≡ some n
        → n ≡ length results + suc room
        → collect_oldest query bounds results xs
          ≡ results ++ take (suc room) (filter passes (cut_at bounds xs))
    unfolding collect_oldest
    collect_oldest_limited n room results [] l h = sym (append-nil results)
    collect_oldest_limited n zero results (x ∷ xs) l h = ground (
      arith,
      collect_oldest_limited n zero results xs,
      append-nil results,
      length-append results (x ∷ []),
    )
    collect_oldest_limited n (suc room) results (x ∷ xs) l h = ground (
      arith,
      collect_oldest_limited n (suc room) results xs,
      collect_oldest_limited n room (results ++ x ∷ []) xs,
      append-nil results,
      length-append results (x ∷ []),
      append_assoc results (x ∷ []) (take (suc room) (filter passes (cut_at bounds xs))),
    )

    collect_oldest-eq-limited :
        (xs : List Entry)
        → is_positive query.limit ≡ true
        → collect_oldest query bounds [] xs ≡ limited query.limit (filter passes (cut_at bounds xs))
    collect_oldest-eq-limited xs = at query.limit refl
      where
        at :
            (limit : Option ℕ)
            → query.limit ≡ limit
            → is_positive limit ≡ true
            → collect_oldest query bounds [] xs ≡ limited limit (filter passes (cut_at bounds xs))
        at none l p = collect_oldest_unlimited [] xs l
        at (some zero) l p = cc
        at (some (suc n)) l p = collect_oldest_limited (suc n) n [] xs l (omega arith)

-- A path as the query walks it.
abbrev pub branch_order : EntryQuery → List Entry → List Entry
branch_order query path = if is_oldest_first query.order then reverse path else path

-- In a state that satisfies the invariant, from an entry that is there, with a limit that is absent
-- or positive: the query takes the path from the entry to its root (turned for `oldestFirst`), cuts
-- it after the first entry at a bound, keeps the entries that match and cuts at the limit. It never
-- fails.
pub find_entries_on_branch-eq-filter :
    (s : SessionState) (query : EntryQuery) (bounds : BranchBounds) (start : String) (e : Entry)
    → IsValid s
    → get start s.entries_by_id ≡ some e
    → is_positive query.limit ≡ true
    → (path : List Entry) × PathToRoot s.entries_by_id e path
      × (find_entries_on_branch s query bounds start
          ≡ ok (
              limited query.limit
                (filter (matches_entry_query query) (cut_at bounds (branch_order query path)))))
unfolding find_entries_on_branch assert_valid_limit
find_entries_on_branch-eq-filter s query bounds start e v found h =
    elim (Bool-cases (is_oldest_first query.order)) [
      | inl oldest ↦
          let (path, is_path, walked) = walk_to_root_path s v no_bounds start e found in
          (
            path,
            is_path,
            ground (
              arith,
              walked,
              spread-cut_at path,
              collect_oldest-eq-limited query bounds (reverse path),
            ),
          )
      | inr newest ↦
          let (path, is_path, walked) = walk_to_root_path s v bounds start e found in
          (
            path,
            is_path,
            ground (arith, walked, collect_newest-eq-limited query (cut_at bounds path)),
          )
    ]
