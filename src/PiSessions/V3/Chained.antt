-- ===== src/PiSessions/V3/Chained.antt =====
-- pi-sessions/v3.ts: the mutations of a parse are numbered from one and their entries are chained, line
-- by line.
use saku.Base.{
  ℕ, suc, ◌+◌, String, Bool, true, false, Option, none, some, List, [], ◌∷◌, ◌++◌, ◌≡◌, refl, sym,
  ap, ◌∙◌, subst, append-nil, map, length, length-append, mem?, str_eq, eq_iff, arith,
  if◌then◌else◌,
}
use saku.Base.Map.{get, put, has, get-put}
use saku.Session.Types.{Entry, SessionMutation}
use saku.Session.State.{mutation_seq_of}
use saku.Session.Replayable.{
  known, Fits, ids_after, all_after, Replayable, Replayable-append, entries_of, entries_of-append,
}
use saku.PiSessions.Json.{Platform}
use saku.PiSessions.V3.{V3Entry, V3Mutation, V3ParseState, parsed, no_lines, write_line, count_line}
use saku.PiSessions.V3.Read.{
  write_name, write_label, apply_decoded, apply_lines, entry_of, mutation_of, mutations_of,
}
use saku.PiSessions.V3.Steps.{
  LineStep, skips, names, labels, registers, parent_there, apply_decoded-LineStep, >>=-eq-parsed,
  parsed_injective,
}
use saku.PiSessions.Common.{parse_line}

-- The target of a label is one of the entries before it. The reader does not check this.
abbrev pub LabelFits : List String → SessionMutation → Type 0
LabelFits ids (SessionMutation.label seq target label) = mem? target ids ≡ true
LabelFits ids _ = Unit

abbrev pub LabelsKnown : List String → List SessionMutation → Type 0
LabelsKnown ids [] = Unit
LabelsKnown ids (m ∷ ms) = LabelFits ids m × LabelsKnown (ids_after ids m) ms

pub all_after-append :
    (ids : List String) (xs ys : List SessionMutation)
    → all_after ids (xs ++ ys) ≡ all_after (all_after ids xs) ys
all_after-append ids [] ys = refl
all_after-append ids (x ∷ xs) ys = all_after-append (ids_after ids x) xs ys

pub LabelsKnown-append :
    (ids : List String) (xs ys : List SessionMutation)
    → LabelsKnown ids (xs ++ ys)
    → LabelsKnown ids xs × LabelsKnown (all_after ids xs) ys
LabelsKnown-append ids [] ys h = (tt, h)
LabelsKnown-append ids (x ∷ xs) ys (fits, h) =
    let (left, right) = LabelsKnown-append (ids_after ids x) xs ys h in ((fits, left), right)

-- The identifier of the last entry.
abbrev pub last_text : List String → Option String
last_text [] = none
last_text (x ∷ []) = some x
last_text (x ∷ y ∷ xs) = last_text (y ∷ xs)

abbrev pub last_id : List Entry → Option String
last_id es = last_text (map (λ (e : Entry). e.id) es)

last_id-append : (es : List Entry) (e : Entry) → last_id (es ++ e ∷ []) ≡ some e.id
last_id-append [] e = refl
last_id-append (x ∷ []) e = refl
last_id-append (x ∷ y ∷ es) e = last_id-append (y ∷ es) e

module _ (js : Platform) where
  pub mutations_of-append :
      (xs ys : List V3Mutation)
      → mutations_of js (xs ++ ys) ≡ mutations_of js xs ++ mutations_of js ys
  unfolding mutations_of
  mutations_of-append [] ys = refl
  mutations_of-append (x ∷ xs) ys = ap (◌∷◌ (mutation_of js x)) (mutations_of-append xs ys)

  abbrev pub log_of : V3ParseState → List SessionMutation
  log_of st = mutations_of js st.mutations

  abbrev pub ids_of : V3ParseState → List String
  ids_of st = all_after [] (log_of st)

  pub record IsChained (st : V3ParseState) : Type 0 where
    pub counted : length (log_of st) ≡ st.seq
    pub tracked : (id : String) → mem? id (ids_of st) ≡ has id st.entries_by_id
    pub chained : LabelsKnown [] (log_of st) → Replayable 0 [] (log_of st)
    pub last_known : known (ids_of st) st.last_entry_id ≡ true
    pub last_is : last_id (entries_of (log_of st)) ≡ st.last_entry_id

  no_lines-IsChained : IsChained no_lines
  unfolding mutations_of get
  no_lines-IsChained = record {
    counted = refl;
    tracked = λ id. refl;
    chained = λ _. tt;
    last_known = refl;
    last_is = refl;
  }

  -- One more mutation, with the next number, that fits as far as the reader checks it.
  module _ (st : V3ParseState) (c : IsChained st) (m : V3Mutation) where
    log_after : mutations_of js (st.mutations ++ m ∷ []) ≡ log_of st ++ mutation_of js m ∷ []
    unfolding mutations_of
    log_after = mutations_of-append st.mutations (m ∷ [])

    entries_after :
        entries_of (mutations_of js (st.mutations ++ m ∷ []))
        ≡ entries_of (log_of st) ++ entries_of (mutation_of js m ∷ [])
    entries_after = ap entries_of log_after ∙ entries_of-append (log_of st) (mutation_of js m ∷ [])

    ids_of_after :
        all_after [] (mutations_of js (st.mutations ++ m ∷ []))
        ≡ ids_after (ids_of st) (mutation_of js m)
    ids_of_after =
        ap (all_after []) log_after ∙ all_after-append [] (log_of st) (mutation_of js m ∷ [])

    counted_after : length (mutations_of js (st.mutations ++ m ∷ [])) ≡ st.seq + 1
    counted_after =
        ap length log_after
        ∙ length-append (log_of st) (mutation_of js m ∷ [])
        ∙ ap (λ n. n + 1) c.counted

    chained_after :
        mutation_seq_of (mutation_of js m) ≡ st.seq + 1
        → (LabelFits (ids_of st) (mutation_of js m) → Fits (ids_of st) (mutation_of js m))
        → LabelsKnown [] (mutations_of js (st.mutations ++ m ∷ []))
        → Replayable 0 [] (mutations_of js (st.mutations ++ m ∷ []))
    chained_after seq fits labelled =
        let (before, (label, _)) =
          LabelsKnown-append [] (log_of st) (mutation_of js m ∷ [])
            (subst (LabelsKnown []) log_after labelled) in
        subst (Replayable 0 []) (sym log_after) (
          Replayable-append 0 [] (log_of st) (mutation_of js m ∷ []) (c.chained before)
            (omega (arith, seq, c.counted), fits label, tt))

  -- A fact leaves the identifiers alone.
  fact-IsChained :
      (st t : V3ParseState) (m : V3Mutation)
      → IsChained st
      → t.mutations ≡ st.mutations ++ m ∷ []
      → t.seq ≡ st.seq + 1
      → t.entries_by_id ≡ st.entries_by_id
      → t.last_entry_id ≡ st.last_entry_id
      → mutation_seq_of (mutation_of js m) ≡ st.seq + 1
      → (LabelFits (ids_of st) (mutation_of js m) → Fits (ids_of st) (mutation_of js m))
      → ids_after (ids_of st) (mutation_of js m) ≡ ids_of st
      → entries_of (mutation_of js m ∷ []) ≡ []
      → IsChained t
  fact-IsChained st t m c written seq same last number fits kept bare =
      let ids : ids_of t ≡ ids_of st =
        ap (λ ms. all_after [] (mutations_of js ms)) written ∙ ids_of_after st c m ∙ kept in
      record {
        counted = ap (λ ms. length (mutations_of js ms)) written ∙ counted_after st c m ∙ sym seq;
        tracked = λ id. ap (mem? id) ids ∙ c.tracked id ∙ ap (has id) (sym same);
        chained =
            subst (λ ms. LabelsKnown [] (mutations_of js ms) → Replayable 0 [] (mutations_of js ms))
              (sym written) (chained_after st c m number fits);
        last_known =
            ap (λ i. known i t.last_entry_id) ids ∙ ap (known (ids_of st)) last ∙ c.last_known;
        last_is =
            ap (λ ms. last_id (entries_of (mutations_of js ms))) written
            ∙ ap last_id (
                entries_after st c m
                ∙ ap (◌++◌ (entries_of (log_of st))) bare
                ∙ append-nil (entries_of (log_of st)))
            ∙ c.last_is
            ∙ sym last;
      }

  parent-Known :
      (st : V3ParseState) (parent : Option String)
      → IsChained st
      → parent_there st parent ≡ true
      → known (ids_of st) parent ≡ true
  parent-Known st none c h = refl
  parent-Known st (some id) c h = c.tracked id ∙ h

  write_line-IsChained :
      (st t : V3ParseState) (e : V3Entry)
      → IsChained st
      → t.mutations ≡ st.mutations ++ V3Mutation.entry e ∷ []
      → t.seq ≡ e.seq
      → t.entries_by_id ≡ put e.id e st.entries_by_id
      → t.last_entry_id ≡ some e.id
      → e.seq ≡ st.seq + 1
      → has e.id st.entries_by_id ≡ false
      → parent_there st e.parent_id ≡ true
      → IsChained t
  unfolding mutation_of entry_of
  write_line-IsChained st t e c written seq by_id last number new parent =
      let ids : ids_of t ≡ e.id ∷ ids_of st =
        ap (λ ms. all_after [] (mutations_of js ms)) written
        ∙ ids_of_after st c (V3Mutation.entry e) in
      record {
        counted =
            ap (λ ms. length (mutations_of js ms)) written
            ∙ counted_after st c (V3Mutation.entry e)
            ∙ sym number
            ∙ sym seq;
        tracked = λ id.
            ap (mem? id) ids
            ∙ at id (str_eq e.id id) (get-put e.id id e st.entries_by_id)
            ∙ ap (has id) (sym by_id);
        chained =
            subst (λ ms. LabelsKnown [] (mutations_of js ms) → Replayable 0 [] (mutations_of js ms))
              (sym written)
              (chained_after st c (V3Mutation.entry e) number
                (λ _. (refl, c.tracked e.id ∙ new, parent-Known st e.parent_id c parent)));
        last_known =
            ap (λ i. known i t.last_entry_id) ids
            ∙ ap (known (e.id ∷ ids_of st)) last
            ∙ rw ((eq_iff e.id e.id).1 refl) refl;
        last_is =
            ap (λ ms. last_id (entries_of (mutations_of js ms))) written
            ∙ ap last_id (entries_after st c (V3Mutation.entry e))
            ∙ last_id-append (entries_of (log_of st)) (entry_of js e)
            ∙ sym last;
      }
    where
      at :
          (id : String) (b : Bool)
          → get id (put e.id e st.entries_by_id) ≡ (if b then some e else get id st.entries_by_id)
          → (if b then true else mem? id (ids_of st)) ≡ has id (put e.id e st.entries_by_id)
      at id true h = rw h refl
      at id false h = rw h (c.tracked id)

  -- Every line that does not throw keeps the log chained.
  LineStep-IsChained : (st t : V3ParseState) → LineStep st t → IsChained st → IsChained t
  unfolding write_name write_label write_line mutation_of
  LineStep-IsChained st t skips c = c
  LineStep-IsChained st t (names id parent text) c =
      fact-IsChained st (write_name st id parent text) (V3Mutation.name (st.seq + 1) text) c refl
        refl refl refl refl (λ _. tt) refl refl
  LineStep-IsChained st t (labels id parent target text) c =
      fact-IsChained st (write_label st id parent target text)
        (V3Mutation.label (st.seq + 1) target text) c refl refl refl refl refl (λ fits. fits) refl
        refl
  LineStep-IsChained st t (registers obj e true first seq new parent) c =
      write_line-IsChained st (count_line true first (write_line st obj e)) e c refl refl refl refl
        seq new parent
  LineStep-IsChained st t (registers obj e false first seq new parent) c =
      write_line-IsChained st (write_line st obj e) e c refl refl refl refl seq new parent

  lines-IsChained :
      (line : ℕ) (lines : List String) (st t : V3ParseState)
      → IsChained st
      → apply_lines js line lines st ≡ parsed t
      → IsChained t
  unfolding apply_lines
  lines-IsChained line [] st t c h = subst IsChained (parsed_injective h) c
  lines-IsChained line (text ∷ lines) st t c h =
      let (next, applied, rest) =
        >>=-eq-parsed (apply_decoded js line (parse_line js text) st) _ h in
      let step = apply_decoded-LineStep js line (parse_line js text) st next applied in
      lines-IsChained (suc line) lines next t (LineStep-IsChained st next step c) rest

  pub apply_lines-IsChained :
      (line : ℕ) (lines : List String) (t : V3ParseState)
      → apply_lines js line lines no_lines ≡ parsed t
      → IsChained t
  apply_lines-IsChained line lines t h = lines-IsChained line lines no_lines t no_lines-IsChained h
