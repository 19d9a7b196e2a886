-- ===== src/PiSessions/V3/Steps.antt =====
-- pi-sessions/v3.ts: what a line that does not throw does to the state of the parse.
use saku.Base.{ℕ, ◌+◌, String, Bool, true, false, not, Option, none, some, ◌≡◌, refl, subst}
use saku.Base.Map.{has}
use saku.Session.Types.{EntryType}
use saku.Session.State.{is_message}
use saku.PiSessions.Json.{JsonFields, Platform, field, text_field}
use saku.PiSessions.Common.{keep_first}
use saku.PiSessions.V3.{
  Fault, Parse, thrown, parsed, ◌>>=◌, ◌>>◌, refuse, require, V3Entry, V3ParseState, LineKind,
  line_kind, entry_id, parent_field, entry_parent, write_line, count_line, resolve_parent,
}
use saku.PiSessions.V3.Read.{
  write_name, write_label, apply_session_info, apply_label, rest_of, custom_message_of,
  register_entry, apply_kind, apply_typed, apply_decoded,
}

pub parsed_injective : {A : Type 0} {a b : A} → parsed a ≡ parsed b → a ≡ b
parsed_injective h = cc

pub >>=-eq-parsed :
    {A B : Type 0} (first : Parse A) (next : A → Parse B) {b : B}
    → (first >>= next) ≡ parsed b
    → (a : A) × (first ≡ parsed a) × (next a ≡ parsed b)
>>=-eq-parsed (thrown e) next h = cc
>>=-eq-parsed (parsed a) next h = (a, refl, h)

pub refuse-eq-parsed :
    {B : Type 0} (test : Bool) (line : ℕ) (fault : Fault) (next : Parse B) {b : B}
    → (refuse test line fault >> next) ≡ parsed b
    → (test ≡ false) × (next ≡ parsed b)
refuse-eq-parsed true line fault next h = cc
refuse-eq-parsed false line fault next h = (refl, h)

-- The parent of an entry is null or an entry that was read.
abbrev pub parent_there : V3ParseState → Option String → Bool
parent_there st none = true
parent_there st (some id) = has id st.entries_by_id

-- The steps of the parse: a line is skipped, is a fact, or is an entry that is new, hangs under a known
-- parent and has the next number.
pub data LineStep (st : V3ParseState) : V3ParseState → Type 0 where
  skips : LineStep st st
  names : (id parent text : String) → LineStep st (write_name st id parent text)
  labels :
      (id parent target : String) (text : Option String)
      → LineStep st (write_label st id parent target text)
  registers :
      (obj : JsonFields) (e : V3Entry) (counted : Bool) (first : String)
      → e.seq ≡ st.seq + 1
      → has e.id st.entries_by_id ≡ false
      → parent_there st e.parent_id ≡ true
      → LineStep st (count_line counted first (write_line st obj e))

entry_id-eq-parsed :
    (st : V3ParseState) (line : ℕ) (found : Option String) {id : String}
    → entry_id st line found ≡ parsed id
    → has id st.entries_by_id ≡ false
unfolding entry_id
entry_id-eq-parsed st line none h = cc
entry_id-eq-parsed st line (some id) h =
    let (_, h₁) = refuse-eq-parsed _ _ _ _ h in
    let (new, h₂) = refuse-eq-parsed _ _ _ _ h₁ in
    subst (λ t. has t st.entries_by_id ≡ false) (parsed_injective h₂) new

not-false : (b : Bool) → not b ≡ false → b ≡ true
not-false true h = refl
not-false false h = cc

entry_parent-eq-parsed :
    (st : V3ParseState) (line : ℕ) (parent : Option String) {resolved : Option String}
    → entry_parent st line parent ≡ parsed resolved
    → parent_there st resolved ≡ true
unfolding entry_parent
entry_parent-eq-parsed st line none h =
    subst (λ t. parent_there st t ≡ true) (parsed_injective h) refl
entry_parent-eq-parsed st line (some id) h =
    let (top, _, h₁) = >>=-eq-parsed (require (resolve_parent st.fact_parent id) line _) _ h in
    let (there, h₂) = refuse-eq-parsed _ _ _ _ h₁ in
    subst (λ t. parent_there st t ≡ true) (parsed_injective h₂) (not-false _ there)

apply_session_info-LineStep :
    (line : ℕ) (obj : JsonFields) (st t : V3ParseState)
    → apply_session_info line obj st ≡ parsed t
    → LineStep st t
unfolding apply_session_info
apply_session_info-LineStep line obj st t h =
    let (id, _, h₁) = >>=-eq-parsed (require (text_field "id" obj) line _) _ h in
    let (parent, _, h₂) = >>=-eq-parsed (require (text_field "parentId" obj) line _) _ h₁ in
    let (_, h₃) = refuse-eq-parsed _ _ _ _ h₂ in
    subst (LineStep st) (parsed_injective h₃) (names id parent _)

apply_label-LineStep :
    (line : ℕ) (obj : JsonFields) (st t : V3ParseState)
    → apply_label line obj st ≡ parsed t
    → LineStep st t
unfolding apply_label
apply_label-LineStep line obj st t h =
    let (id, _, h₁) = >>=-eq-parsed (require (text_field "id" obj) line _) _ h in
    let (parent, _, h₂) = >>=-eq-parsed (require (text_field "parentId" obj) line _) _ h₁ in
    let (target, _, h₃) = >>=-eq-parsed (require (text_field "targetId" obj) line _) _ h₂ in
    let (_, h₄) = refuse-eq-parsed _ _ _ _ h₃ in
    subst (LineStep st) (parsed_injective h₄) (labels id parent target _)

module _ (js : Platform) where
  -- What an entry line that does not throw writes.
  pub register_entry-eq-parsed :
      (st t : V3ParseState) (obj : JsonFields) (line : ℕ) (type : EntryType)
      (build : ℕ → JsonFields)
      → register_entry js st obj line type build ≡ parsed t
      → (e : V3Entry) × (write_line st obj e ≡ t)
        × (e.seq ≡ st.seq + 1)
        × (has e.id st.entries_by_id ≡ false)
        × (parent_there st e.parent_id ≡ true)
  unfolding register_entry
  register_entry-eq-parsed st t obj line type build h =
      let (id, own, h₁) = >>=-eq-parsed (entry_id st line (text_field "id" obj)) _ h in
      let (parent, _, h₂) = >>=-eq-parsed (parent_field (field "parentId" obj) line) _ h₁ in
      let (resolved, above, h₃) = >>=-eq-parsed (entry_parent st line parent) _ h₂ in
      (
        _,
        parsed_injective h₃,
        refl,
        entry_id-eq-parsed st line (text_field "id" obj) own,
        entry_parent-eq-parsed st line parent above,
      )

  apply_kind-LineStep :
      (kind : LineKind) (line : ℕ) (obj : JsonFields) (st t : V3ParseState)
      → apply_kind js kind line obj st ≡ parsed t
      → LineStep st t
  unfolding apply_kind
  apply_kind-LineStep LineKind.session_info line obj st t h =
      apply_session_info-LineStep line obj st t h
  apply_kind-LineStep LineKind.label line obj st t h = apply_label-LineStep line obj st t h
  apply_kind-LineStep LineKind.custom_message line obj st t h =
      let (e, made, seq, new, parent) =
        register_entry-eq-parsed st t obj line EntryType.message (custom_message_of obj) h in
      subst (LineStep st) made (registers obj e false "" seq new parent)
  apply_kind-LineStep (LineKind.entry type) line obj st t h =
      let (next, registered, h₁) =
        >>=-eq-parsed (register_entry js st obj line type (λ _. rest_of obj)) _ h in
      let (e, made, seq, new, parent) =
        register_entry-eq-parsed st next obj line type (λ _. rest_of obj) registered in
      subst (LineStep st) (parsed_injective h₁) (
        subst
          (λ (x : V3ParseState).
            LineStep st (count_line (is_message type) (keep_first js next.first_message obj) x))
          made
          (registers obj e (is_message type) (keep_first js next.first_message obj) seq new parent))
  apply_kind-LineStep LineKind.unknown line obj st t h =
      subst (LineStep st) (parsed_injective h) skips

  apply_typed-LineStep :
      (type : Option String) (line : ℕ) (obj : JsonFields) (st t : V3ParseState)
      → apply_typed js type line obj st ≡ parsed t
      → LineStep st t
  apply_typed-LineStep none line obj st t h = subst (LineStep st) (parsed_injective h) skips
  apply_typed-LineStep (some type) line obj st t h =
      apply_kind-LineStep (line_kind type) line obj st t h

  -- Every line that does not throw is one of the steps.
  pub apply_decoded-LineStep :
      (line : ℕ) (decoded : Option JsonFields) (st t : V3ParseState)
      → apply_decoded js line decoded st ≡ parsed t
      → LineStep st t
  apply_decoded-LineStep line none st t h = subst (LineStep st) (parsed_injective h) skips
  apply_decoded-LineStep line (some obj) st t h =
      apply_typed-LineStep (text_field "type" obj) line obj st t h
