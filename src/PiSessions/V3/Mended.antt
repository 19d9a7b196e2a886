-- ===== src/PiSessions/V3/Mended.antt =====
-- pi-sessions/v3.ts: the tails that are filled in at the end leave the log in order.
use saku.Base.{
  ℕ, suc, String, Bool, true, false, none, List, [], ◌∷◌, ◌≡◌, refl, ap, length, if◌then◌else◌, map,
}
use saku.Base.Map.{Map}
use saku.Session.Types.{Entry, SessionMutation}
use saku.Session.Replayable.{Replayable, all_after, entries_of}
use saku.PiSessions.Json.{JsonFields, Platform}
use saku.PiSessions.V3.{V3Entry, V3Mutation}
use saku.PiSessions.V3.Tails.{with_tail, synthesize, is_compaction}
use saku.PiSessions.V3.Read.{entry_of, mutation_of, mutations_of}
use saku.PiSessions.V3.Chained.{LabelsKnown}

with_tail-elim :
    (raw : Map JsonFields) (path : List V3Entry) (e : V3Entry) (P : V3Entry → Type 0)
    → ((fields : JsonFields) → P (record e { fields = fields }))
    → P (with_tail raw path e)
unfolding with_tail
with_tail-elim raw path e P h = at (is_compaction e.type) _
  where
    at : (b : Bool) (fields : JsonFields) → P (if b then record e { fields = fields } else e)
    at true fields = h fields
    at false fields = h e.fields

module _ (js : Platform) (raw : Map JsonFields) (path : List V3Entry) where
  abbrev pub mended : List V3Mutation → List SessionMutation
  mended ms = mutations_of js (synthesize raw path ms)

  -- The tails change neither the identifiers nor the parents nor the numbers.
  pub Replayable-mended :
      (n : ℕ) (ids : List String) (ms : List V3Mutation)
      → Replayable n ids (mutations_of js ms)
      → Replayable n ids (mended ms)
  unfolding mutations_of mutation_of entry_of synthesize
  Replayable-mended n ids [] h = tt
  Replayable-mended n ids (V3Mutation.entry e ∷ ms) (seq, fits, h) =
      let rest = Replayable-mended (suc n) (e.id ∷ ids) ms h in
      with_tail-elim raw path e
        (λ x. Replayable n ids (SessionMutation.entry none (entry_of js x) ∷ mended ms))
        (λ fields. (seq, fits, rest))
  Replayable-mended n ids (V3Mutation.lane seq lane leaf ∷ ms) (number, fits, h) =
      (number, fits, Replayable-mended (suc n) ids ms h)
  Replayable-mended n ids (V3Mutation.name seq name ∷ ms) (number, fits, h) =
      (number, fits, Replayable-mended (suc n) ids ms h)
  Replayable-mended n ids (V3Mutation.label seq target label ∷ ms) (number, fits, h) =
      (number, fits, Replayable-mended (suc n) ids ms h)

  pub LabelsKnown-mended :
      (ids : List String) (ms : List V3Mutation)
      → LabelsKnown ids (mended ms)
      → LabelsKnown ids (mutations_of js ms)
  unfolding mutations_of mutation_of entry_of synthesize
  LabelsKnown-mended ids [] h = tt
  LabelsKnown-mended ids (V3Mutation.entry e ∷ ms) h =
      with_tail-elim raw path e
        (λ x.
          LabelsKnown ids (SessionMutation.entry none (entry_of js x) ∷ mended ms)
          → LabelsKnown ids (SessionMutation.entry none (entry_of js e) ∷ mutations_of js ms))
        (λ fields (_, k). (tt, LabelsKnown-mended (e.id ∷ ids) ms k)) h
  LabelsKnown-mended ids (V3Mutation.lane seq lane leaf ∷ ms) (_, h) =
      (tt, LabelsKnown-mended ids ms h)
  LabelsKnown-mended ids (V3Mutation.name seq name ∷ ms) (_, h) = (tt, LabelsKnown-mended ids ms h)
  LabelsKnown-mended ids (V3Mutation.label seq target label ∷ ms) (fits, h) =
      (fits, LabelsKnown-mended ids ms h)

  pub all_after-mended :
      (ids : List String) (ms : List V3Mutation)
      → all_after ids (mended ms) ≡ all_after ids (mutations_of js ms)
  unfolding mutations_of mutation_of entry_of synthesize
  all_after-mended ids [] = refl
  all_after-mended ids (V3Mutation.entry e ∷ ms) =
      with_tail-elim raw path e
        (λ x.
          all_after ids (SessionMutation.entry none (entry_of js x) ∷ mended ms)
          ≡ all_after (e.id ∷ ids) (mutations_of js ms))
        (λ fields. all_after-mended (e.id ∷ ids) ms)
  all_after-mended ids (V3Mutation.lane seq lane leaf ∷ ms) = all_after-mended ids ms
  all_after-mended ids (V3Mutation.name seq name ∷ ms) = all_after-mended ids ms
  all_after-mended ids (V3Mutation.label seq target label ∷ ms) = all_after-mended ids ms

  pub length-mended : (ms : List V3Mutation) → length (mended ms) ≡ length (mutations_of js ms)
  unfolding mutations_of synthesize
  length-mended [] = refl
  length-mended (V3Mutation.entry e ∷ ms) = ap suc (length-mended ms)
  length-mended (V3Mutation.lane seq lane leaf ∷ ms) = ap suc (length-mended ms)
  length-mended (V3Mutation.name seq name ∷ ms) = ap suc (length-mended ms)
  length-mended (V3Mutation.label seq target label ∷ ms) = ap suc (length-mended ms)

  -- The identifiers of the entries stay.
  pub entry_ids-mended :
      (ms : List V3Mutation)
      → map (λ (e : Entry). e.id) (entries_of (mended ms))
        ≡ map (λ (e : Entry). e.id) (entries_of (mutations_of js ms))
  unfolding mutations_of mutation_of entry_of synthesize
  entry_ids-mended [] = refl
  entry_ids-mended (V3Mutation.entry e ∷ ms) =
      with_tail-elim raw path e
        (λ x.
          map (λ (e : Entry). e.id)
            (entries_of (SessionMutation.entry none (entry_of js x) ∷ mended ms))
          ≡ e.id ∷ map (λ (e : Entry). e.id) (entries_of (mutations_of js ms)))
        (λ fields. ap (◌∷◌ e.id) (entry_ids-mended ms))
  entry_ids-mended (V3Mutation.lane seq lane leaf ∷ ms) = entry_ids-mended ms
  entry_ids-mended (V3Mutation.name seq name ∷ ms) = entry_ids-mended ms
  entry_ids-mended (V3Mutation.label seq target label ∷ ms) = entry_ids-mended ms
