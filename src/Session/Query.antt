-- ===== src/Session/Query.antt =====
-- session-state.ts: the queries over entries, records and the log. A limit and a cursor are natural
-- numbers, so of the checks on them only the one for a limit of zero remains.
pub mod Laws
use saku.Base.{
  ℕ, ◌+◌, String, Bool, true, false, not, ◌&&◌, ◌||◌, Option, none, some, List, [], ◌∷◌, ◌++◌,
  reverse, ◌==◌, ltb, leb, if◌then◌else◌, opt_eq, str_eq, length, take,
}
use saku.Base.Map.{Map, get, values}
use saku.Session.Types.{
  EntryType, EntryType-discrete, Entry, RecordBody, LaneRecord, LogItem, item_seq, SessionError,
  guard, Result, ok, err, ◌>>=◌, ◌>>◌,
}
use saku.Session.State.{SessionState}
use mathlib.Core.Logic.{ite}

pub data Order : Type 0 where
  newest_first oldest_first : Order

pub record EntryQuery : Type 0 where
  pub type : Option EntryType
  pub custom_type : Option String
  pub cursor : Option ℕ  -- `cursor.afterSeq`
  pub order : Option Order
  pub limit : Option ℕ

pub data RecordTag : Type 0 where
  operation_started abort_requested operation_finished step_attempt tool_started : RecordTag
  write_deferred queue_enqueued queue_cancelled usage : RecordTag

pub RecordTag-discrete : Discrete RecordTag
RecordTag-discrete = hlevel

pub record RecordQuery : Type 0 where
  pub lane : Option String
  pub type : Option RecordTag
  pub run_id : Option String
  pub operation_kind : Option String
  pub after_seq : Option ℕ
  pub order : Option Order
  pub limit : Option ℕ

abbrev pub is_positive : Option ℕ → Bool
is_positive none = true
is_positive (some n) = not (n == 0)

unfoldable pub assert_valid_limit : Option ℕ → Result (Unit {0})
assert_valid_limit limit = guard (is_positive limit) SessionError.invalid_query

abbrev pub is_oldest_first : Option Order → Bool
is_oldest_first (some Order.oldest_first) = true
is_oldest_first _ = false

unfoldable pub ordered {ℓ} : {A : Type ℓ} → List A → Option Order → List A
ordered items order = if is_oldest_first order then items else reverse items

abbrev pub same_type : EntryType → EntryType → Bool
same_type a b = ite (EntryType-discrete a b) true false

abbrev pub matches_type : Option EntryType → EntryType → Bool
matches_type none t = true
matches_type (some wanted) t = same_type t wanted

abbrev pub matches_custom : Option String → Entry → Bool
matches_custom none e = true
matches_custom (some wanted) e =
    same_type e.type EntryType.custom && opt_eq e.custom_type (some wanted)

abbrev pub matches_cursor : Option ℕ → Option Order → ℕ → Bool
matches_cursor none order seq = true
matches_cursor (some after_seq) order seq =
    if is_oldest_first order then ltb after_seq seq else ltb seq after_seq

unfoldable pub matches_entry_query : EntryQuery → Entry → Bool
matches_entry_query query e =
    matches_type query.type e.type
    && matches_custom query.custom_type e
    && matches_cursor query.cursor query.order e.seq

abbrev pub tag_of : RecordBody → RecordTag
tag_of (RecordBody.operation_started kind) = RecordTag.operation_started
tag_of (RecordBody.abort_requested run_id) = RecordTag.abort_requested
tag_of (RecordBody.operation_finished run_id) = RecordTag.operation_finished
tag_of (RecordBody.step_attempt run_id) = RecordTag.step_attempt
tag_of (RecordBody.tool_started run_id) = RecordTag.tool_started
tag_of (RecordBody.write_deferred run_id) = RecordTag.write_deferred
tag_of (RecordBody.queue_enqueued run_id) = RecordTag.queue_enqueued
tag_of (RecordBody.queue_cancelled run_id) = RecordTag.queue_cancelled
tag_of (RecordBody.usage u run_id) = RecordTag.usage

-- A started operation is its own run; another record names its run in `runId`.
abbrev pub run_of : LaneRecord → RecordBody → Option String
run_of r (RecordBody.operation_started kind) = some r.id
run_of r (RecordBody.abort_requested run_id) = some run_id
run_of r (RecordBody.operation_finished run_id) = some run_id
run_of r (RecordBody.step_attempt run_id) = some run_id
run_of r (RecordBody.tool_started run_id) = some run_id
run_of r (RecordBody.write_deferred run_id) = some run_id
run_of r (RecordBody.queue_enqueued run_id) = run_id
run_of r (RecordBody.queue_cancelled run_id) = run_id
run_of r (RecordBody.usage u run_id) = run_id

abbrev pub kind_of : RecordBody → Option String
kind_of (RecordBody.operation_started kind) = some kind
kind_of _ = none

-- `wanted === undefined || actual === wanted`
abbrev pub matches_text : Option String → Option String → Bool
matches_text none actual = true
matches_text (some wanted) actual = opt_eq actual (some wanted)

abbrev pub matches_tag : Option RecordTag → RecordTag → Bool
matches_tag none t = true
matches_tag (some wanted) t = ite (RecordTag-discrete t wanted) true false

abbrev pub is_after : Option ℕ → ℕ → Bool
is_after none seq = true
is_after (some after_seq) seq = ltb after_seq seq

unfoldable pub matches_record_query : RecordQuery → LaneRecord → Bool
matches_record_query query r =
    matches_text query.lane (some r.lane)
    && matches_tag query.type (tag_of r.body)
    && matches_text query.run_id (run_of r r.body)
    && matches_text query.operation_kind (kind_of r.body)
    && is_after query.after_seq r.seq

-- `results.length === limit`
abbrev pub at_limit {ℓ} : {A : Type ℓ} → Option ℕ → List A → Bool
at_limit none results = false
at_limit (some n) results = length results == n

-- The loop that `findEntries`, `findRecords` and `getLog` share: an item that does not pass is
-- skipped, one that passes is pushed, and the loop breaks at the limit.
pub scan {ℓ} : {A : Type ℓ} → (A → Bool) → Option ℕ → List A → List A → List A
scan passes limit results [] = results
scan passes limit results (x ∷ xs) = elim (passes x) [
  | false ↦ scan passes limit results xs
  | true ↦ elim (at_limit limit (results ++ x ∷ [])) [
    | true ↦ results ++ x ∷ []
    | false ↦ scan passes limit (results ++ x ∷ []) xs
  ]
]

unfoldable pub find_entries : SessionState → EntryQuery → Result (List Entry)
unfolding scan
find_entries s query = do
  assert_valid_limit query.limit
  ok (scan (matches_entry_query query) query.limit [] (ordered s.entries query.order))

unfoldable pub find_records : SessionState → RecordQuery → Result (List LaneRecord)
unfolding scan
find_records s query = do
  assert_valid_limit query.limit
  ok (scan (matches_record_query query) query.limit [] (ordered s.records query.order))

unfoldable pub get_log : SessionState → Option ℕ → Option ℕ → Result (List LogItem)
unfolding scan
get_log s after_seq limit = do
  assert_valid_limit limit
  ok (scan (λ item. is_after after_seq (item_seq item)) limit [] s.log)

abbrev pub limited {ℓ} : {A : Type ℓ} → Option ℕ → List A → List A
limited none xs = xs
limited (some n) xs = take n xs

-- The open operations of a lane, the latest first.
unfoldable pub find_open_operations : SessionState → String → Option ℕ → Result (List LaneRecord)
find_open_operations s lane limit = do
  assert_valid_limit limit
  ok (elim (get lane s.open_operations_by_lane) [
    | none ↦ []
    | some by_id ↦ limited limit (reverse (values by_id))
  ])
