-- ===== src/Session/Storage/Recovery.antt =====
-- The log on disk and the state in memory agree, so that loading a session gives back the state.
use saku.Base.{
  ℕ, suc, ◌+◌, some, List, [], ◌∷◌, ◌++◌, ◌≡◌, ◌≢◌, refl, sym, ap, ◌∙◌, inl, inr, length,
  length-append, arith, fun_ext, Bool-cases, eq_refl,
}
use saku.Base.Sort.{insert_by, insert_by_comm}
use saku.Session.Types.{SessionMutation, Result, ok, ◌>>=◌, ok_injective, Result-cases}
use saku.Session.State.{
  SessionState, initial, apply_mutation, replay, mutation_seq_of, write_entry, write_record,
  write_lane, write_name, write_label, apply_kind,
}
use saku.Session.Accepted.{
  apply_entry-eq-ok, apply_record-eq-ok, apply_lane-eq-ok, apply_label-eq-ok, apply_mutation-eq-ok,
}
use saku.Session.Invariant.{IsValid}
use saku.Session.Invariant.Replay.{replay-IsValid}
use saku.Session.Storage.{
  Value, DoSessionStorage, put_log, sort_log, decodes, list_log, parse_mutation, replay_log,
  read_meta, load, append_mutation,
}

-- The log keys of a history: `log/<k + 1>`, `log/<k + 2>`, … in order.
abbrev pub logged : ℕ → List SessionMutation → List (ℕ × Value)
logged k [] = []
logged k (m ∷ ms) = (suc k, Value.mutation m) ∷ logged (suc k) ms

-- The disk holds the metadata and, one key each and in order, the mutations that made the state.
pub record IsSynced (st : DoSessionStorage) : Type 0 where
  pub history : List SessionMutation
  pub on_disk : st.keys.log ≡ logged 0 history
  pub in_memory : replay initial history ≡ ok st.state
  pub counted : length history ≡ st.state.sequence
  pub meta_kept : st.keys.meta ≡ some (Value.metadata st.metadata)

pub IsSynced-IsValid : (st : DoSessionStorage) → IsSynced st → IsValid st.state
IsSynced-IsValid st y = replay-IsValid st.state y.history y.in_memory

sequence-apply_kind :
    (s t : SessionState) (m : SessionMutation)
    → apply_kind s m ≡ ok t
    → t.sequence ≡ mutation_seq_of m
unfolding write_entry write_record write_lane write_name write_label
sequence-apply_kind s t (SessionMutation.entry at e) h =
    ap (λ (u : SessionState). u.sequence) (sym (apply_entry-eq-ok s t at e h).3)
sequence-apply_kind s t (SessionMutation.lane_record r) h =
    ap (λ (u : SessionState). u.sequence) (sym (apply_record-eq-ok s t r h).2)
sequence-apply_kind s t (SessionMutation.lane seq name leaf) h =
    ap (λ (u : SessionState). u.sequence) (sym (apply_lane-eq-ok s t seq name leaf h).1)
sequence-apply_kind s t (SessionMutation.name seq text) h =
    ap (λ (u : SessionState). u.sequence) (sym (ok_injective h))
sequence-apply_kind s t (SessionMutation.label seq target text) h =
    ap (λ (u : SessionState). u.sequence) (sym (apply_label-eq-ok s t seq target text h).1)

put_log-logged :
    (n k : ℕ) (m : SessionMutation) (ms : List SessionMutation)
    → n ≡ suc (k + length ms)
    → put_log n (Value.mutation m) (logged k ms) ≡ logged k (ms ++ m ∷ [])
unfolding put_log
put_log-logged n k m [] h =
    let same : n ≡ suc k = omega arith in ap (λ (i : ℕ). (i, Value.mutation m) ∷ []) same
put_log-logged n k m (x ∷ ms) h = ground (arith, put_log-logged n (suc k) m ms (omega arith))

pub replay-append :
    (s : SessionState) (ms : List SessionMutation) (m : SessionMutation)
    → replay s (ms ++ m ∷ []) ≡ (replay s ms >>= λ t. apply_mutation t m)
unfolding replay
replay-append s [] m = ground arith
replay-append s (x ∷ ms) m = elim (Result-cases (apply_mutation s x)) [
  | inl (t, accepted) ↦ rw (accepted, ◌>>=◌) (replay-append t ms m)
  | inr (e, refused) ↦ rw (refused, ◌>>=◌)
]

-- An accepted mutation that is on disk keeps the two in step.
pub append_mutation-IsSynced :
    (st : DoSessionStorage) (m : SessionMutation) (state : SessionState)
    → IsSynced st
    → apply_mutation st.state m ≡ ok state
    → IsSynced (record (append_mutation st m) { state = state })
unfolding append_mutation
append_mutation-IsSynced st m state y h =
    let (next, accepted) = apply_mutation-eq-ok st.state state m h in
    record {
      history = y.history ++ m ∷ [];
      on_disk =
          rw y.on_disk
            (put_log-logged (mutation_seq_of m) 0 m y.history (omega (arith, y.counted)));
      in_memory = rw (replay-append initial y.history m, y.in_memory) h;
      counted = omega (
        arith,
        length-append y.history (m ∷ []),
        y.counted,
        sequence-apply_kind st.state state m accepted,
      );
      meta_kept = y.meta_kept;
    }

list_log-logged : (k : ℕ) (ms : List SessionMutation) → list_log (logged k ms) ≡ logged k ms
unfolding list_log
list_log-logged k [] = refl
list_log-logged k (m ∷ ms) = ap (◌∷◌ (suc k, Value.mutation m)) (list_log-logged (suc k) ms)

abbrev by_number : ℕ × Value → ℕ
by_number x = x.0

insert_by-logged :
    (k : ℕ) (v : Value) (ms : List SessionMutation)
    → insert_by by_number (k, v) (logged k ms) ≡ (k, v) ∷ logged k ms
unfolding insert_by
insert_by-logged k v [] = refl
insert_by-logged k v (m ∷ ms) = ground arith

sort_log-logged : (k : ℕ) (ms : List SessionMutation) → sort_log (logged k ms) ≡ logged k ms
unfolding sort_log
sort_log-logged k [] = refl
sort_log-logged k (m ∷ ms) =
    rw (sort_log-logged (suc k) ms) (insert_by-logged (suc k) (Value.mutation m) ms)

replay_log-logged :
    (s : SessionState) (k : ℕ) (ms : List SessionMutation)
    → replay_log s (logged k ms) ≡ replay s ms
unfolding replay_log replay parse_mutation
replay_log-logged s k [] = refl
replay_log-logged s k (m ∷ ms) =
    ap (λ (f : SessionState → Result SessionState). apply_mutation s m >>= f)
      (fun_ext λ next. replay_log-logged next (suc k) ms)

-- Orders of the keys that exchanges of neighbours with different numbers lead to.
pub data Shuffle : List (ℕ × Value) → List (ℕ × Value) → Type 0 where
  same : {l : List (ℕ × Value)} → Shuffle l l
  swap : (x y : ℕ × Value) {l : List (ℕ × Value)} → x.0 ≢ y.0 → Shuffle (x ∷ y ∷ l) (y ∷ x ∷ l)
  cons : (x : ℕ × Value) {l k : List (ℕ × Value)} → Shuffle l k → Shuffle (x ∷ l) (x ∷ k)
  chain : {l k m : List (ℕ × Value)} → Shuffle l k → Shuffle k m → Shuffle l m

sort_log-Shuffle : {l k : List (ℕ × Value)} → Shuffle l k → sort_log l ≡ sort_log k
unfolding sort_log
sort_log-Shuffle same = refl
sort_log-Shuffle (swap x y {l} h) = insert_by_comm by_number x y (sort_log l) h
sort_log-Shuffle (cons x p) = ap (insert_by by_number x) (sort_log-Shuffle p)
sort_log-Shuffle (chain p q) = sort_log-Shuffle p ∙ sort_log-Shuffle q

list_log-Shuffle : {l k : List (ℕ × Value)} → Shuffle l k → Shuffle (list_log l) (list_log k)
unfolding list_log
list_log-Shuffle same = same
list_log-Shuffle (swap (n, v) (m, w) {l} h) = elim (Bool-cases (decodes v)) [
  | inl a ↦ elim (Bool-cases (decodes w)) [
    | inl b ↦ rw (a, b) (swap (n, v) (m, w) h)
    | inr b ↦ rw (a, b) same
  ]
  | inr a ↦ elim (Bool-cases (decodes w)) [ inl b ↦ rw (a, b) same | inr b ↦ rw (a, b) same ]
]
list_log-Shuffle (cons (n, v) p) = elim (Bool-cases (decodes v)) [
  | inl a ↦ rw a (cons (n, v) (list_log-Shuffle p))
  | inr a ↦ rw a (list_log-Shuffle p)
]
list_log-Shuffle (chain p q) = chain (list_log-Shuffle p) (list_log-Shuffle q)

-- Loading a session that is in step gives the state in memory back, in whatever order the backend
-- lists the log keys.
pub load_recovers :
    (st : DoSessionStorage) (log : List (ℕ × Value))
    → IsSynced st
    → Shuffle log st.keys.log
    → load (record { meta = st.keys.meta; log = log }) st.metadata.id
      ≡ ok (record st { keys = record { meta = st.keys.meta; log = log } })
unfolding load read_meta
load_recovers st log y shuffled =
    let sorted : sort_log (list_log log) ≡ logged 0 y.history =
      sort_log-Shuffle (list_log-Shuffle shuffled)
      ∙ rw (y.on_disk, list_log-logged 0 y.history) (sort_log-logged 0 y.history) in
    let replayed : replay_log initial (sort_log (list_log log)) ≡ ok st.state =
      rw sorted (replay_log-logged initial 0 y.history ∙ y.in_memory) in
    ground (arith, replayed, y.meta_kept, eq_refl st.metadata.id)
