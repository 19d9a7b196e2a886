-- ===== src/Wire/Client/Settled.antt =====
-- client.ts: every request is answered once.
use saku.Base.{
  ℕ, suc, ◌+◌, ◌≤◌, String, Bool, true, false, List, [], ◌∷◌, ◌++◌, ◌≡◌, refl, sym, ap, ◌∙◌, subst,
  str_eq, if◌then◌else◌, mem?, arith, Bool-cases, inl, inr, eq_iff,
}
use saku.Wire.Client.{Outcome, WireClient, delete, settle, settle_all}

-- How often a text stands in a list.
abbrev pub count : String → List String → ℕ
count id [] = 0
count id (x ∷ xs) = let rest = count id xs in if str_eq x id then suc rest else rest

abbrev pub answered : List (String × Outcome) → List String
answered [] = []
answered ((id, outcome) ∷ settled) = id ∷ answered settled

pub count-append :
    (id : String) (xs ys : List String) → count id (xs ++ ys) ≡ count id xs + count id ys
count-append id [] ys = omega arith
count-append id (x ∷ xs) ys = ground (arith, count-append id xs ys)

answered-append :
    (xs : List (String × Outcome)) (id : String) (outcome : Outcome)
    → answered (xs ++ (id, outcome) ∷ []) ≡ answered xs ++ id ∷ []
answered-append [] id outcome = refl
answered-append ((x, o) ∷ xs) id outcome = ap (◌∷◌ x) (answered-append xs id outcome)

pub mem?-append :
    (id x : String) (xs : List String)
    → mem? id (xs ++ x ∷ []) ≡ (if mem? id xs then true else str_eq x id)
mem?-append id x [] = ground arith
mem?-append id x (y ∷ xs) = ground (arith, mem?-append id x xs)

pub count-delete :
    (id x : String) (xs : List String)
    → count id (delete x xs) ≡ (if str_eq x id then 0 else count id xs)
unfolding delete
count-delete id x [] = ground arith
count-delete id x (y ∷ xs) =
    ground (arith, count-delete id x xs, eq_iff x id, eq_iff y x, eq_iff y id, eq_iff x y)

pub mem?-delete :
    (id x : String) (xs : List String)
    → mem? id (delete x xs) ≡ (if str_eq x id then false else mem? id xs)
unfolding delete
mem?-delete id x [] = ground arith
mem?-delete id x (y ∷ xs) =
    ground (arith, mem?-delete id x xs, eq_iff x id, eq_iff y x, eq_iff y id, eq_iff x y)

pub mem?-delete_absent :
    (id x : String) (xs : List String) → mem? x xs ≡ false → mem? id xs ≡ mem? id (delete x xs)
mem?-delete_absent id x xs absent = at (str_eq x id) refl ∙ sym (mem?-delete id x xs)
  where
    at : (b : Bool) → str_eq x id ≡ b → mem? id xs ≡ (if b then false else mem? id xs)
    at true same = subst (λ t. mem? t xs ≡ false) ((eq_iff x id).0 same) absent
    at false _ = refl

mem?-count : (id : String) (xs : List String) → mem? id xs ≡ true → 1 ≤ count id xs
mem?-count id [] h = cc
mem?-count id (x ∷ xs) h = ground (arith, mem?-count id xs)

module _ (c : WireClient) (id : String) (outcome : Outcome) where
  settle-absent : mem? id c.awaiting ≡ false → settle c id outcome ≡ c
  unfolding settle
  settle-absent h = rw (h, settle) refl

  abbrev completed : WireClient
  completed = record c {
    awaiting = delete id c.awaiting;
    settled = c.settled ++ (id, outcome) ∷ [];
  }

  settle-present : mem? id c.awaiting ≡ true → settle c id outcome ≡ completed
  unfolding settle
  settle-present h = rw (h, settle) refl

-- What a settled request leaves: the same requests pending, the others waiting.
module _ (c : WireClient) (id : String) (outcome : Outcome) where
  pub settle_awaiting :
      (x : String)
      → mem? x (settle c id outcome).awaiting ≡ (if str_eq id x then false else mem? x c.awaiting)
  settle_awaiting x = elim (Bool-cases (mem? id c.awaiting)) [
    | inl present ↦
        ap (λ (d : WireClient). mem? x d.awaiting) (settle-present c id outcome present)
        ∙ mem?-delete x id c.awaiting
    | inr absent ↦
        ap (λ (d : WireClient). mem? x d.awaiting) (settle-absent c id outcome absent)
        ∙ at (str_eq id x) refl absent
  ]
    where
      at :
          (b : Bool)
          → str_eq id x ≡ b
          → mem? id c.awaiting ≡ false
          → mem? x c.awaiting ≡ (if b then false else mem? x c.awaiting)
      at true same absent = subst (λ t. mem? t c.awaiting ≡ false) ((eq_iff id x).0 same) absent
      at false _ absent = refl

  pub settle_pending : (settle c id outcome).pending ≡ c.pending
  settle_pending = elim (Bool-cases (mem? id c.awaiting)) [
    | inl present ↦ ap (λ (d : WireClient). d.pending) (settle-present c id outcome present)
    | inr absent ↦ ap (λ (d : WireClient). d.pending) (settle-absent c id outcome absent)
  ]

  pub settle_seq : (settle c id outcome).seq ≡ c.seq
  settle_seq = elim (Bool-cases (mem? id c.awaiting)) [
    | inl present ↦ ap (λ (d : WireClient). d.seq) (settle-present c id outcome present)
    | inr absent ↦ ap (λ (d : WireClient). d.seq) (settle-absent c id outcome absent)
  ]

module _ (issued : List String) (single : (id : String) → count id issued ≤ 1) where
  -- Every request that was issued waits or was answered, and not both, nor twice.
  abbrev pub Once : WireClient → Type 0
  Once c = (id : String) → count id c.awaiting + count id (answered c.settled) ≡ count id issued

  pub settle-Once :
      (c : WireClient) (id : String) (outcome : Outcome) → Once c → Once (settle c id outcome)
  settle-Once c id outcome once = elim (Bool-cases (mem? id c.awaiting)) [
    | inr absent ↦ subst Once (sym (settle-absent c id outcome absent)) once
    | inl present ↦ subst Once (sym (settle-present c id outcome present)) λ x.
        let appended : count x (answered (c.settled ++ (id, outcome) ∷ []))
            ≡ count x (answered c.settled) + count x (id ∷ []) =
          ap (count x) (answered-append c.settled id outcome)
          ∙ count-append x (answered c.settled) (id ∷ []) in
        at x (str_eq id x) refl appended (once x) (single x) (count-delete x id c.awaiting)
          (mem?-count id c.awaiting present)
  ]
    where
      at :
          (x : String) (b : Bool)
          → str_eq id x ≡ b
          → count x (answered (c.settled ++ (id, outcome) ∷ []))
            ≡ count x (answered c.settled) + (if b then 1 else 0)
          → count x c.awaiting + count x (answered c.settled) ≡ count x issued
          → count x issued ≤ 1
          → count x (delete id c.awaiting) ≡ (if b then 0 else count x c.awaiting)
          → 1 ≤ count id c.awaiting
          → count x (delete id c.awaiting) + count x (answered (c.settled ++ (id, outcome) ∷ []))
            ≡ count x issued
      at x true same appended total one deleted present =
          let here : 1 ≤ count x c.awaiting =
            subst (λ t. 1 ≤ count t c.awaiting) ((eq_iff id x).0 same) present in
          omega (arith, appended, total, one, deleted, here)
      at x false same appended total one deleted present = omega (arith, appended, total, deleted)

  pub settle_all-Once :
      (c : WireClient) (ids : List String) (outcome : Outcome)
      → Once c
      → Once (settle_all c ids outcome)
  unfolding settle_all
  settle_all-Once c [] outcome once = once
  settle_all-Once c (id ∷ ids) outcome once =
      settle_all-Once (settle c id outcome) ids outcome (settle-Once c id outcome once)

pub settle_all_awaiting :
    (c : WireClient) (ids : List String) (outcome : Outcome) (x : String)
    → mem? x (settle_all c ids outcome).awaiting ≡ (if mem? x ids then false else mem? x c.awaiting)
unfolding settle_all
settle_all_awaiting c [] outcome x = refl
settle_all_awaiting c (id ∷ ids) outcome x =
    settle_all_awaiting (settle c id outcome) ids outcome x
    ∙ ap (λ b. if mem? x ids then false else b) (settle_awaiting c id outcome x)
    ∙ at (mem? x ids) (str_eq id x)
  where
    at :
        (rest same : Bool)
        → (if rest then false else if same then false else mem? x c.awaiting)
          ≡ (if (if same then true else rest) then false else mem? x c.awaiting)
    at true true = refl
    at true false = refl
    at false true = refl
    at false false = refl

pub settle_all_pending :
    (c : WireClient) (ids : List String) (outcome : Outcome)
    → (settle_all c ids outcome).pending ≡ c.pending
unfolding settle_all
settle_all_pending c [] outcome = refl
settle_all_pending c (id ∷ ids) outcome =
    settle_all_pending (settle c id outcome) ids outcome ∙ settle_pending c id outcome

pub settle_all_seq :
    (c : WireClient) (ids : List String) (outcome : Outcome)
    → (settle_all c ids outcome).seq ≡ c.seq
unfolding settle_all
settle_all_seq c [] outcome = refl
settle_all_seq c (id ∷ ids) outcome =
    settle_all_seq (settle c id outcome) ids outcome ∙ settle_seq c id outcome
