-- ===== src/Live/Loaded.antt =====
-- live.ts: what the trail holds when a read of it lands, and that nothing that streamed is lost.
use saku.Base.{
  ℕ, String, Bool, true, false, ◌||◌, List, [], ◌∷◌, ◌++◌, ◌≡◌, refl, ap, ◌∙◌, arith, if◌then◌else◌,
  eq_iff, mem?, leb, All,
}
use saku.Base.Sort.{insert_by, sort_by}
use saku.Live.{Entry, TrailState, Live, entry_id, entry_seq, dedupe, merge, fold_trail_loaded}

abbrev pub ids : List Entry → List String
ids [] = []
ids (e ∷ es) = entry_id e ∷ ids es

-- No two entries have the same identifier.
abbrev pub IsDistinct : List Entry → Type 0
IsDistinct [] = Unit
IsDistinct (e ∷ es) = (mem? (entry_id e) (ids es) ≡ false) × IsDistinct es

-- Every entry's sequence number is at most those of the entries after it.
abbrev pub IsOrdered : List Entry → Type 0
IsOrdered [] = Unit
IsOrdered (e ∷ es) = All (λ f. leb (entry_seq e) (entry_seq f) ≡ true) es × IsOrdered es

mem?-dedupe_seen :
    (x : String) (seen : List String) (es : List Entry)
    → mem? x seen ≡ true
    → mem? x (ids (dedupe seen es)) ≡ false
unfolding dedupe
mem?-dedupe_seen x seen [] h = refl
mem?-dedupe_seen x seen (e ∷ es) h = ground (
  arith,
  eq_iff (entry_id e) x,
  mem?-dedupe_seen x seen es h,
  mem?-dedupe_seen x (entry_id e ∷ seen) es,
)

mem?-dedupe :
    (x : String) (seen : List String) (es : List Entry)
    → mem? x seen ≡ false
    → mem? x (ids (dedupe seen es)) ≡ mem? x (ids es)
unfolding dedupe
mem?-dedupe x seen [] h = refl
mem?-dedupe x seen (e ∷ es) h =
    ground
      (arith, eq_iff (entry_id e) x, mem?-dedupe x seen es h, mem?-dedupe x (entry_id e ∷ seen) es)

dedupe-IsDistinct : (seen : List String) (es : List Entry) → IsDistinct (dedupe seen es)
unfolding dedupe
dedupe-IsDistinct seen [] = tt
dedupe-IsDistinct seen (e ∷ es) =
    at (mem? (entry_id e) seen) (dedupe-IsDistinct seen es)
      (dedupe-IsDistinct (entry_id e ∷ seen) es)
  where
    at :
        (b : Bool)
        → IsDistinct (dedupe seen es)
        → IsDistinct (dedupe (entry_id e ∷ seen) es)
        → IsDistinct (if b then dedupe seen es else e ∷ dedupe (entry_id e ∷ seen) es)
    at true old _ = old
    at false _ new = (
      mem?-dedupe_seen (entry_id e) (entry_id e ∷ seen) es
          (rw ((eq_iff (entry_id e) (entry_id e)).1 refl) refl),
      new,
    )

mem?-insert_by :
    (x : String) (e : Entry) (es : List Entry)
    → mem? x (ids (insert_by entry_seq e es)) ≡ mem? x (ids (e ∷ es))
unfolding insert_by
mem?-insert_by x e [] = refl
mem?-insert_by x e (f ∷ es) = ground (arith, mem?-insert_by x e es)

mem?-sort_by :
    (x : String) (es : List Entry) → mem? x (ids (sort_by entry_seq es)) ≡ mem? x (ids es)
unfolding sort_by
mem?-sort_by x [] = refl
mem?-sort_by x (e ∷ es) =
    mem?-insert_by x e (sort_by entry_seq es) ∙ ground (arith, mem?-sort_by x es)

insert_by-IsDistinct :
    (e : Entry) (es : List Entry)
    → mem? (entry_id e) (ids es) ≡ false
    → IsDistinct es
    → IsDistinct (insert_by entry_seq e es)
unfolding insert_by
insert_by-IsDistinct e [] fresh d = (refl, tt)
insert_by-IsDistinct e (f ∷ es) fresh (apart, d) =
    at (leb (entry_seq e) (entry_seq f)) (insert_by-IsDistinct e es (ground (arith, fresh)) d)
  where
    at :
        (b : Bool)
        → IsDistinct (insert_by entry_seq e es)
        → IsDistinct (if b then e ∷ f ∷ es else f ∷ insert_by entry_seq e es)
    at true _ = (fresh, (apart, d))
    at false rest = (
      mem?-insert_by (entry_id f) e es
          ∙ ground (
            arith,
            fresh,
            apart,
            eq_iff (entry_id e) (entry_id f),
            eq_iff (entry_id f) (entry_id e),
          ),
      rest,
    )

sort_by-IsDistinct : (es : List Entry) → IsDistinct es → IsDistinct (sort_by entry_seq es)
unfolding sort_by
sort_by-IsDistinct [] d = tt
sort_by-IsDistinct (e ∷ es) (apart, d) =
    insert_by-IsDistinct e (sort_by entry_seq es) (mem?-sort_by (entry_id e) es ∙ apart)
      (sort_by-IsDistinct es d)

abbrev Below : Entry → Entry → Type 0
Below e f = leb (entry_seq e) (entry_seq f) ≡ true

All-insert_by :
    (P : Entry → Type 0) (e : Entry) (es : List Entry)
    → P e
    → All P es
    → All P (insert_by entry_seq e es)
unfolding insert_by
All-insert_by P e [] p _ = (p, tt)
All-insert_by P e (f ∷ es) p (q, rest) =
    at (leb (entry_seq e) (entry_seq f)) (All-insert_by P e es p rest)
  where
    at :
        (b : Bool)
        → All P (insert_by entry_seq e es)
        → All P (if b then e ∷ f ∷ es else f ∷ insert_by entry_seq e es)
    at true _ = (p, (q, rest))
    at false there = (q, there)

All-Below : (e f : Entry) (es : List Entry) → Below e f → All (Below f) es → All (Below e) es
All-Below e f [] _ _ = tt
All-Below e f (g ∷ es) p (q, rest) = (ground (arith, p, q), All-Below e f es p rest)

insert_by-IsOrdered :
    (e : Entry) (es : List Entry) → IsOrdered es → IsOrdered (insert_by entry_seq e es)
unfolding insert_by
insert_by-IsOrdered e [] _ = (tt, tt)
insert_by-IsOrdered e (f ∷ es) (first, o) =
    at (leb (entry_seq e) (entry_seq f)) refl (insert_by-IsOrdered e es o)
  where
    at :
        (b : Bool)
        → leb (entry_seq e) (entry_seq f) ≡ b
        → IsOrdered (insert_by entry_seq e es)
        → IsOrdered (if b then e ∷ f ∷ es else f ∷ insert_by entry_seq e es)
    at true below _ = ((below, All-Below e f es below first), (first, o))
    at false above rest = (All-insert_by (Below f) e es (ground (arith, above)) first, rest)

sort_by-IsOrdered : (es : List Entry) → IsOrdered (sort_by entry_seq es)
unfolding sort_by
sort_by-IsOrdered [] = tt
sort_by-IsOrdered (e ∷ es) = insert_by-IsOrdered e (sort_by entry_seq es) (sort_by-IsOrdered es)

abbrev pub shown : TrailState → List Entry
shown (TrailState.success loaded) = loaded.entries
shown _ = []

-- When a read of the trail lands, whatever it brought and whatever was buffered, the trail that the pane
-- shows has no entry twice and stands in the order of the sequence numbers.
pub fold_trail_loaded-IsOrdered :
    (state : Live) (entries : List Entry) (n : ℕ)
    → IsDistinct (shown (fold_trail_loaded state entries n).trail)
      × IsOrdered (shown (fold_trail_loaded state entries n).trail)
unfolding fold_trail_loaded
fold_trail_loaded-IsOrdered state entries n =
    (sort_by-IsDistinct _ (dedupe-IsDistinct [] (entries ++ state.pending)), sort_by-IsOrdered _)

pub ids-append : (xs ys : List Entry) → ids (xs ++ ys) ≡ ids xs ++ ids ys
ids-append [] ys = refl
ids-append (x ∷ xs) ys = ap (λ l. entry_id x ∷ l) (ids-append xs ys)

pub mem?-append : (x : String) (a b : List String) → mem? x (a ++ b) ≡ (mem? x a || mem? x b)
mem?-append x [] b = refl
mem?-append x (y ∷ a) b = ground (arith, mem?-append x a b)

pub mem?-merge :
    (x : String) (state : Live) (entries : List Entry)
    → mem? x (ids (merge state entries)) ≡ (mem? x (ids entries) || mem? x (ids state.pending))
mem?-merge x state entries =
    mem?-sort_by x _
    ∙ mem?-dedupe x [] (entries ++ state.pending) refl
    ∙ ap (mem? x) (ids-append entries state.pending)
    ∙ mem?-append x (ids entries) (ids state.pending)
