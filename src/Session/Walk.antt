-- ===== src/Session/Walk.antt =====
-- session-state.ts: `walkToRoot` and the queries on a branch. The generator is a stream that ends
-- well or by a throw, so that a consumer that stops early never meets the throw. The walk has fuel
-- for one entry more than the sequence number, which is enough in a state that satisfies the
-- invariant.
pub mod Total
pub mod Branch
use saku.Base.{
  ℕ, zero, suc, String, Bool, true, false, ◌||◌, Option, none, some, List, [], ◌∷◌, ◌++◌, reverse,
  if◌then◌else◌, opt_eq, mem?,
}
use saku.Base.Map.{Map, get}
use saku.Session.Types.{EntryType, Entry, SessionError, Result, ok, err, ◌>>=◌, ◌>>◌}
use saku.Session.State.{SessionState}
use saku.Session.Query.{
  EntryQuery, assert_valid_limit, is_oldest_first, same_type, matches_entry_query, at_limit,
}

pub record BranchBounds : Type 0 where
  pub stop_at_id : Option String
  pub stop_at_type : Option EntryType

abbrev pub no_bounds : BranchBounds
no_bounds = record { stop_at_id = none; stop_at_type = none }

pub data Walk : Type 0 where
  done : Walk
  fail : SessionError → Walk
  visit : Entry → Walk → Walk

abbrev pub is_stop_type : Option EntryType → EntryType → Bool
is_stop_type none t = false
is_stop_type (some stop) t = same_type t stop

abbrev pub is_stop_id : Option String → String → Bool
is_stop_id none id = false
is_stop_id (some stop) id = opt_eq (some id) (some stop)

unfoldable pub reached_bound : BranchBounds → Entry → Bool
reached_bound bounds e =
    is_stop_id bounds.stop_at_id e.id || is_stop_type bounds.stop_at_type e.type

-- The body of the `while` loop; the entry that it is at was found.
unfoldable pub walk_from : Map Entry → BranchBounds → ℕ → List String → Entry → Walk
walk_from by_id bounds zero visited current = fail SessionError.out_of_fuel
walk_from by_id bounds (suc fuel) visited current = elim (mem? current.id visited) [
  | true ↦ fail SessionError.invalid_entry
  | false ↦ visit current (elim (reached_bound bounds current) [
    | true ↦ done
    | false ↦ elim current.parent_id [
      | none ↦ done
      | some parent_id ↦ elim (get parent_id by_id) [
        | none ↦ fail SessionError.invalid_entry
        | some parent ↦ walk_from by_id bounds fuel (current.id ∷ visited) parent
      ]
    ]
  ])
]

unfoldable pub walk_to_root : SessionState → String → BranchBounds → Walk
walk_to_root s start bounds = elim (get start s.entries_by_id) [
  | none ↦ fail SessionError.not_found
  | some current ↦ walk_from s.entries_by_id bounds (suc s.sequence) [] current
]

-- `[...walk]`
unfoldable pub spread : Walk → Result (List Entry)
spread done = ok []
spread (fail e) = err e
spread (visit x rest) = do xs ← spread rest; ok (x ∷ xs)

abbrev pub push_matching : EntryQuery → List Entry → Entry → List Entry
push_matching query results e = if matches_entry_query query e then results ++ e ∷ [] else results

-- The loop of the arm for `oldestFirst`, over the reversed walk.
unfoldable pub collect_oldest : EntryQuery → BranchBounds → List Entry → List Entry → List Entry
collect_oldest query bounds results [] = results
collect_oldest query bounds results (e ∷ es) =
    let results' = push_matching query results e in
    elim (reached_bound bounds e || at_limit query.limit results') [
      | true ↦ results'
      | false ↦ collect_oldest query bounds results' es
    ]

-- The loop of the other arm.
unfoldable pub collect_newest : EntryQuery → List Entry → Walk → Result (List Entry)
collect_newest query results done = ok results
collect_newest query results (fail e) = err e
collect_newest query results (visit e rest) =
    let results' = push_matching query results e in
    elim (at_limit query.limit results') [
      | true ↦ ok results'
      | false ↦ collect_newest query results' rest
    ]

unfoldable pub find_entries_on_branch :
    SessionState → EntryQuery → BranchBounds → String → Result (List Entry)
find_entries_on_branch s query bounds start = do
  assert_valid_limit query.limit
  elim (is_oldest_first query.order) [
    | true ↦ do
      path ← spread (walk_to_root s start no_bounds)
      ok (collect_oldest query bounds [] (reverse path))
    | false ↦ collect_newest query [] (walk_to_root s start bounds)
  ]
