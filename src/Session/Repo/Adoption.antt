-- ===== src/Session/Repo/Adoption.antt =====
-- do-session-repo.ts: what an import leaves behind.
use saku.Base.{
  ℕ, String, true, false, Option, none, List, [], ◌≡◌, refl, sym, ap, subst, or_else, is_some,
}
use saku.Base.Map.{put, get-put_self}
use saku.Session.Types.{SessionMutation, SessionError, Result, err}
use saku.Session.Storage.{DoSessionStorage, SessionKeys, load}
use saku.Session.Repo.{
  Repo, keys_of, is_taken, is_session_id, metadata_of, imported, import_session,
}

import_session-taken :
    (repo : Repo) (id cwd : String) (n : ℕ) (mutations : List SessionMutation)
    → is_session_id id ≡ true
    → is_taken repo id ≡ true
    → import_session repo id cwd n mutations ≡ (repo, err SessionError.already_exists)
unfolding import_session
import_session-taken repo id cwd n mutations valid taken = rw (valid, taken) refl

pub import_session-free :
    (repo : Repo) (id cwd : String) (n : ℕ) (mutations : List SessionMutation)
    → is_session_id id ≡ true
    → is_taken repo id ≡ false
    → import_session repo id cwd n mutations ≡ (
      put id (imported (keys_of repo id) (metadata_of id n cwd none) mutations) repo,
      load (imported (keys_of repo id) (metadata_of id n cwd none) mutations) id,
    )
unfolding import_session
import_session-free repo id cwd n mutations valid free = rw (valid, free) refl

-- An import is tried once per identifier: whether it succeeds or fails on its mutations, the identifier
-- is taken afterwards, and another import under it is refused without a change.
pub import_session-again :
    (repo : Repo) (id cwd cwd' : String) (n n' : ℕ) (mutations mutations' : List SessionMutation)
    → is_session_id id ≡ true
    → is_taken repo id ≡ false
    → import_session (import_session repo id cwd n mutations).0 id cwd' n' mutations'
      ≡ ((import_session repo id cwd n mutations).0, err SessionError.already_exists)
import_session-again repo id cwd cwd' n n' mutations mutations' valid free =
    subst
      (λ (x : Repo × Result DoSessionStorage).
        import_session x.0 id cwd' n' mutations' ≡ (x.0, err SessionError.already_exists))
      (sym first)
      (import_session-taken (put id keys repo) id cwd' n' mutations' valid (
        ap
          (λ (k : Option SessionKeys).
            is_some (or_else {A = SessionKeys} k (record { meta = none; log = [] })).meta)
          (get-put_self id keys repo)))
  where
    keys : SessionKeys
    keys = imported (keys_of repo id) (metadata_of id n cwd none) mutations

    first : import_session repo id cwd n mutations ≡ (put id keys repo, load keys id)
    first = import_session-free repo id cwd n mutations valid free
