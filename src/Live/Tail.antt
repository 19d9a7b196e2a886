-- ===== src/Live/Tail.antt =====
-- live.ts: the last sequence number seen, and entries that arrive twice.
use saku.Base.{
  ℕ, ◌≤◌, Bool, true, false, ◌||◌, some, List, [], ◌∷◌, ◌++◌, ◌≡◌, refl, sym, ap, ◌∙◌, ◌⊎◌, inl,
  inr, Bool-cases, arith, if◌then◌else◌, or_else, eq_iff, All, ltb,
}
use saku.Live.{
  Entry, TrailData, TrailState, Live, entry_id, last, is_last, is_seen, is_message, clear_message,
  max, fold_entry_appended, tail_of, merge, fold_trail_loaded,
}
use saku.Live.Loaded.{shown}

abbrev pub tail : TrailState → ℕ
tail (TrailState.success loaded) = loaded.tail_seq
tail _ = 0

max-right : (a b : ℕ) → b ≤ max a b
unfolding max
max-right a b = ground arith

tail_of-above : (n : ℕ) (es : List Entry) → n ≤ tail_of n es
unfolding tail_of max
tail_of-above n [] = omega arith
tail_of-above n (e ∷ es) = grind (arith, tail_of-above (max n (or_else e.seq 0)) es)

abbrev pub Covered : ℕ → Entry → Type 0
Covered n e = or_else e.seq 0 ≤ n

tail_of-Covered : (n : ℕ) (es : List Entry) → All (Covered (tail_of n es)) es
unfolding tail_of
tail_of-Covered n [] = tt
tail_of-Covered n (e ∷ es) = (
  omega (arith, max-right n (or_else e.seq 0), tail_of-above (max n (or_else e.seq 0)) es),
  tail_of-Covered (max n (or_else e.seq 0)) es,
)

-- A number is the one given, or that of one of the entries.
abbrev pub Attains : ℕ → ℕ → List Entry → Type 0
Attains t n [] = t ≡ n
Attains t n (e ∷ es) = (t ≡ or_else e.seq 0) ⊎ Attains t n es

max-Attains : (t a b : ℕ) (es : List Entry) → Attains t (max a b) es → (t ≡ b) ⊎ Attains t a es
unfolding max
max-Attains t a b [] h = elim (Bool-cases (ltb a b)) [
  | inl below ↦ inl (h ∙ rw (below) refl)
  | inr above ↦ inr (h ∙ rw (above) refl)
]
max-Attains t a b (e ∷ es) (inl at) = inr (inl at)
max-Attains t a b (e ∷ es) (inr later) = elim (max-Attains t a b es later) [
  | inl same ↦ inl same
  | inr older ↦ inr (inr older)
]

tail_of-Attains : (n : ℕ) (es : List Entry) → Attains (tail_of n es) n es
unfolding tail_of
tail_of-Attains n [] = refl
tail_of-Attains n (e ∷ es) =
    max-Attains (tail_of (max n (or_else e.seq 0)) es) n (or_else e.seq 0) es
      (tail_of-Attains (max n (or_else e.seq 0)) es)

-- The tail after a read lands is the greatest of the number that the read told and the sequence numbers
-- of the entries that the trail then has (0 for an entry without one), whatever the tail was before: it
-- is below none of them, and it is one of them.
pub tail-fold_trail_loaded :
    (state : Live) (entries : List Entry) (n : ℕ)
    → (n ≤ tail (fold_trail_loaded state entries n).trail)
      × All
          (Covered (tail (fold_trail_loaded state entries n).trail))
          (shown (fold_trail_loaded state entries n).trail)
      × Attains
          (tail (fold_trail_loaded state entries n).trail)
          n
          (shown (fold_trail_loaded state entries n).trail)
unfolding fold_trail_loaded
tail-fold_trail_loaded state entries n = (
  tail_of-above n (merge state entries),
  tail_of-Covered n (merge state entries),
  tail_of-Attains n (merge state entries),
)

last-append : (es : List Entry) (e : Entry) → last (es ++ e ∷ []) ≡ some e
unfolding last
last-append [] e = refl
last-append (f ∷ []) e = refl
last-append (f ∷ g ∷ es) e = last-append (g ∷ es) e

-- The state after an entry that is new to a loaded trail.
abbrev pub grown : Live → Entry → TrailData → Live
grown state e loaded = record state {
  live = if is_message e then clear_message state.live else state.live;
  trail = TrailState.success record {
    entries = loaded.entries ++ e ∷ [];
    tail_seq = max loaded.tail_seq (or_else e.seq 0);
  };
}

abbrev pub is_replayed : Entry → TrailData → Bool
is_replayed e loaded = is_last (entry_id e) (last loaded.entries) || is_seen e.seq loaded.tail_seq

pub fold_entry_appended-loaded :
    (state : Live) (e : Entry) (loaded : TrailData)
    → state.trail ≡ TrailState.success loaded
    → fold_entry_appended state e ≡ (if is_replayed e loaded then state else grown state e loaded)
unfolding fold_entry_appended
fold_entry_appended-loaded state e loaded h =
    ap
      (λ t. elim t as (λ _. Live) [
        | TrailState.success l ↦ if is_replayed e l then state else grown state e l
        | TrailState.unloaded ↦ record state { pending = state.pending ++ e ∷ [] }
        | TrailState.failure message ↦ record state { pending = state.pending ++ e ∷ [] }
      ])
      h

grown-is_replayed :
    (state : Live) (e : Entry) (loaded : TrailData)
    → fold_entry_appended (grown state e loaded) e ≡ grown state e loaded
grown-is_replayed state e loaded =
    fold_entry_appended-loaded (grown state e loaded) e _ refl
    ∙ rw (last-append loaded.entries e, (eq_iff (entry_id e) (entry_id e)).1 refl) refl

-- An entry that arrives twice in a row on a loaded trail is appended once: the second arrival changes
-- nothing.
fold_entry_appended-twice :
    (state : Live) (e : Entry) (loaded : TrailData)
    → state.trail ≡ TrailState.success loaded
    → fold_entry_appended (fold_entry_appended state e) e ≡ fold_entry_appended state e
fold_entry_appended-twice state e loaded h = elim (Bool-cases (is_replayed e loaded)) [
  | inl old ↦ ap (λ s. fold_entry_appended s e) (same old) ∙ same old ∙ sym (same old)
  | inr new ↦
      ap (λ s. fold_entry_appended s e) (moved new)
      ∙ grown-is_replayed state e loaded
      ∙ sym (moved new)
]
  where
    same : is_replayed e loaded ≡ true → fold_entry_appended state e ≡ state
    same old = fold_entry_appended-loaded state e loaded h ∙ chosen (is_replayed e loaded) old
      where
        chosen : (b : Bool) → b ≡ true → (if b then state else grown state e loaded) ≡ state
        chosen b t = rw (t) refl

    moved : is_replayed e loaded ≡ false → fold_entry_appended state e ≡ grown state e loaded
    moved new = fold_entry_appended-loaded state e loaded h ∙ chosen (is_replayed e loaded) new
      where
        chosen :
            (b : Bool)
            → b ≡ false
            → (if b then state else grown state e loaded) ≡ grown state e loaded
        chosen b t = rw (t) refl
