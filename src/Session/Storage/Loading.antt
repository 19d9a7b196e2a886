-- ===== src/Session/Storage/Loading.antt =====
-- do-session.ts: what loading makes of whatever lies under a session's keys.
use saku.Base.{
  ℕ, String, Bool, true, false, Option, none, some, List, [], ◌∷◌, ◌≡◌, refl, sym, subst, ap, ◌∙◌,
  if◌then◌else◌, str_eq, eq_iff,
}
use saku.Session.Types.{SessionError, ok, err, >>=-eq-ok, ok_injective}
use saku.Session.State.{SessionState, initial, apply_mutation}
use saku.Session.Invariant.{IsValid, initial-IsValid}
use saku.Session.Invariant.Replay.{apply_mutation-IsValid}
use saku.Session.Storage.{
  DoSessionMetadata, Value, SessionKeys, DoSessionStorage, sort_log, list_log, parse_mutation,
  replay_log, read_meta, load,
}

replay_log-IsValid :
    (s t : SessionState) (log : List (ℕ × Value)) → IsValid s → replay_log s log ≡ ok t → IsValid t
unfolding replay_log
replay_log-IsValid s t [] v h = subst IsValid (ok_injective h) v
replay_log-IsValid s t ((n, w) ∷ log) v h =
    let (m, _, applied) = >>=-eq-ok (parse_mutation w) _ h in
    let (next, accepted, rest) = >>=-eq-ok (apply_mutation s m) _ applied in
    replay_log-IsValid next t log (apply_mutation-IsValid s next m v accepted) rest

read_meta-own :
    (found : Option Value) (id : String) (m : DoSessionMetadata)
    → read_meta found id ≡ ok m
    → m.id ≡ id
unfolding read_meta
read_meta-own none id m h = cc h
read_meta-own (some Value.corrupt) id m h = cc h
read_meta-own (some Value.other) id m h = cc h
read_meta-own (some (Value.mutation _)) id m h = cc h
read_meta-own (some (Value.metadata k)) id m h = at (str_eq k.id id) refl h
  where
    at :
        (b : Bool)
        → str_eq k.id id ≡ b
        → (if b then ok k else err SessionError.invalid_entry) ≡ ok m
        → m.id ≡ id
    at true same e =
        ap (λ (x : DoSessionMetadata). x.id) (sym (ok_injective e)) ∙ (eq_iff k.id id).0 same
    at false _ e = cc e

-- Whatever metadata, mutations, other objects and corrupt bytes lie under a session's keys, as long as what
-- has the kind of a mutation or the identifier of the metadata is of the declared type, a load that
-- succeeds gives the metadata of the session asked for
-- and a state that satisfies the invariant.
pub load-IsValid :
    (keys : SessionKeys) (id : String) (st : DoSessionStorage)
    → load keys id ≡ ok st
    → (st.metadata.id ≡ id) × (st.keys ≡ keys) × IsValid st.state
unfolding load
load-IsValid keys id st h =
    let (m, read, rest) = >>=-eq-ok (read_meta keys.meta id) _ h in
    let (state, replayed, made) =
      >>=-eq-ok (replay_log initial (sort_log (list_log keys.log))) _ rest in
    (
      ap (λ (x : DoSessionStorage). x.metadata.id) (sym (ok_injective made))
          ∙ read_meta-own keys.meta id m read,
      ap (λ (x : DoSessionStorage). x.keys) (sym (ok_injective made)),
      subst (λ (x : DoSessionStorage). IsValid x.state) (ok_injective made)
          (replay_log-IsValid initial state (sort_log (list_log keys.log)) initial-IsValid
            replayed),
    )
