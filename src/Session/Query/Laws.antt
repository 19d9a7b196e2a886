-- ===== src/Session/Query/Laws.antt =====
-- The queries against their description: select, then cut at the limit.
use saku.Base.{
  ℕ, zero, suc, ◌+◌, Bool, true, Option, none, some, List, [], ◌∷◌, ◌++◌, ◌≡◌, sym, ap, length,
  length-append, take, filter, append-nil, append_assoc, arith,
}
use saku.Session.Types.{ok}
use saku.Session.State.{SessionState}
use saku.Session.Query.{
  EntryQuery, RecordQuery, is_positive, assert_valid_limit, ordered, matches_entry_query,
  matches_record_query, scan, find_entries, find_records, get_log, limited, is_after, item_seq,
}

module _ {ℓ} {A : Type ℓ} (passes : A → Bool) where
  scan_unlimited : (results xs : List A) → scan passes none results xs ≡ results ++ filter passes xs
  unfolding scan
  scan_unlimited results [] = sym (append-nil results)
  scan_unlimited results (x ∷ xs) = ground (
    arith,
    scan_unlimited results xs,
    scan_unlimited (results ++ x ∷ []) xs,
    append_assoc results (x ∷ []) (filter passes xs),
  )

  scan_limited :
      (n room : ℕ) (results xs : List A)
      → n ≡ length results + suc room
      → scan passes (some n) results xs ≡ results ++ take (suc room) (filter passes xs)
  unfolding scan
  scan_limited n room results [] h = sym (append-nil results)
  scan_limited n zero results (x ∷ xs) h =
      ground (arith, scan_limited n zero results xs, length-append results (x ∷ []))
  scan_limited n (suc room) results (x ∷ xs) h = ground (
    arith,
    scan_limited n (suc room) results xs,
    scan_limited n room (results ++ x ∷ []) xs,
    length-append results (x ∷ []),
    append_assoc results (x ∷ []) (take (suc room) (filter passes xs)),
  )

  scan-eq-limited :
      (limit : Option ℕ) (xs : List A)
      → is_positive limit ≡ true
      → scan passes limit [] xs ≡ limited limit (filter passes xs)
  scan-eq-limited none xs h = scan_unlimited [] xs
  scan-eq-limited (some zero) xs h = cc
  scan-eq-limited (some (suc n)) xs h = scan_limited (suc n) n [] xs (omega arith)

-- With a limit that is absent or positive, `findEntries` answers with the entries that match, in
-- the order asked for, cut at the limit.
pub find_entries-eq-filter :
    (s : SessionState) (query : EntryQuery)
    → is_positive query.limit ≡ true
    → find_entries s query
      ≡ ok
          (limited query.limit (filter (matches_entry_query query) (ordered s.entries query.order)))
unfolding find_entries assert_valid_limit
find_entries-eq-filter s query h =
    rw h (ap ok (scan-eq-limited (matches_entry_query query) query.limit _ h))

-- With a limit that is absent or positive, `findRecords` answers with the records that match, in the
-- order asked for, cut at the limit.
pub find_records-eq-filter :
    (s : SessionState) (query : RecordQuery)
    → is_positive query.limit ≡ true
    → find_records s query
      ≡ ok (
          limited query.limit (filter (matches_record_query query) (ordered s.records query.order)))
unfolding find_records assert_valid_limit
find_records-eq-filter s query h =
    rw h (ap ok (scan-eq-limited (matches_record_query query) query.limit _ h))

-- With a limit that is absent or positive, `getLog` answers with the items past the cursor, in log
-- order, cut at the limit.
pub get_log-eq-filter :
    (s : SessionState) (after_seq limit : Option ℕ)
    → is_positive limit ≡ true
    → get_log s after_seq limit
      ≡ ok (limited limit (filter (λ item. is_after after_seq (item_seq item)) s.log))
unfolding get_log assert_valid_limit
get_log-eq-filter s after_seq limit h =
    rw h (ap ok (scan-eq-limited (λ item. is_after after_seq (item_seq item)) limit _ h))
