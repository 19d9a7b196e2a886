-- ===== src/Session/Repo.antt =====
-- do-session-repo.ts: the sessions of a key-value store. The keys under `session/<id>/` stand as one
-- value of a map by identifier; the time and a fresh identifier are arguments.
pub mod Adoption
pub mod Forking
use saku.Base.{
  ℕ, String, Bool, true, false, not, ◌&&◌, ◌||◌, Option, none, some, List, [], ◌∷◌, if◌then◌else◌,
  or_else, is_some, leb, ◌==◌,
}
use saku.Base.Text.{is_empty_text}
use saku.Base.Map.{Map, get, put, remove}
use saku.Session.Types.{SessionMutation, SessionError, Result, ok, err}
use saku.Session.State.{mutation_seq_of}
use saku.Session.Storage.{
  DoSessionMetadata, Value, SessionKeys, DoSessionStorage, put_log, create, load, apply_mutations,
}
use saku.Session.Fork.{ForkOptions, create_fork_mutations}
use Prim.Native.Char.{code}
use Prim.Native.String.{[] as ε, ◌∷◌ as ◌::◌}

abbrev pub Repo : Type 0
Repo = Map SessionKeys

abbrev pub keys_of : Repo → String → SessionKeys
keys_of repo id = or_else (get id repo) (record { meta = none; log = [] })

-- The byte-existence check: a corrupt meta counts as taken.
abbrev pub is_taken : Repo → String → Bool
is_taken repo id = is_some (keys_of repo id).meta

abbrev pub is_alphanumeric : ℕ → Bool
is_alphanumeric c = (leb 48 c && leb c 57) || (leb 65 c && leb c 90) || (leb 97 c && leb c 122)

abbrev pub is_id_code : ℕ → Bool
is_id_code c = is_alphanumeric c || c == 45 || c == 46 || c == 95

-- What follows the first character of an identifier.
unfoldable pub ends_well : String → Bool
ends_well ε = true
ends_well (c :: s) =
    let rest = ends_well s in
    if is_empty_text s then is_alphanumeric (code c) else is_id_code (code c) && rest

-- `SESSION_ID_PATTERN`
unfoldable pub is_session_id : String → Bool
unfolding ends_well
is_session_id ε = false
is_session_id (c :: s) = is_alphanumeric (code c) && ends_well s

-- The checks of `create` and `import`, by their outcomes, and what follows them.
abbrev pub checked :
    (is_valid is_used : Bool)
    → Repo
    → Repo × Result DoSessionStorage
    → Repo × Result DoSessionStorage
checked false is_used repo next = (repo, err SessionError.invalid_payload)
checked true true repo next = (repo, err SessionError.already_exists)
checked true false repo next = next

abbrev pub if_free : Repo → String → Repo × Result DoSessionStorage → Repo × Result DoSessionStorage
if_free repo id next = checked (is_session_id id) (is_taken repo id) repo next

abbrev pub metadata_of : String → ℕ → String → Option String → DoSessionMetadata
metadata_of id created_at cwd parent = record {
  id = id;
  created_at = created_at;
  cwd = cwd;
  parent_session_id = parent;
}

unfoldable pub create_session :
    Repo → String → ℕ → (parent : Option String) → Repo × Result DoSessionStorage
create_session repo id now parent =
    let st = create (metadata_of id now "" parent) (keys_of repo id) in
    if_free repo id (put id st.keys repo, ok st)

unfoldable pub put_all : List (ℕ × Value) → List SessionMutation → List (ℕ × Value)
put_all log [] = log
put_all log (m ∷ ms) = put_all (put_log (mutation_seq_of m) (Value.mutation m) log) ms

-- The keys that an import writes.
abbrev pub imported : SessionKeys → DoSessionMetadata → List SessionMutation → SessionKeys
imported keys m mutations = record {
  meta = some (Value.metadata m);
  log = put_all keys.log mutations;
}

unfoldable pub import_session :
    Repo
    → String
    → (cwd : String) → (created_at : ℕ) → List SessionMutation
    → Repo × Result DoSessionStorage
import_session repo id cwd created_at mutations =
    let keys = imported (keys_of repo id) (metadata_of id created_at cwd none) mutations in
    if_free repo id (put id keys repo, load keys id)

-- A session with the mutations of a log written to its keys, none of them applied.
unfoldable pub append_all : DoSessionStorage → List SessionMutation → DoSessionStorage
unfolding put_all
append_all st ms = record st { keys = record { meta = st.keys.meta; log = put_all st.keys.log ms } }

-- What `fork` does behind its checks. The metadata is written before the mutations are computed.
abbrev pub forked_into :
    Repo → DoSessionStorage → Result (List SessionMutation) → Repo × Result DoSessionStorage
forked_into repo child (err e) = (put child.metadata.id child.keys repo, err e)
forked_into repo child (ok ms) =
    let written = append_all child ms in
    (put child.metadata.id written.keys repo, apply_mutations written ms)

-- `fork`, where the source was loaded.
abbrev pub fork_loaded :
    Repo
    → (source : DoSessionMetadata) → Result DoSessionStorage
    → ForkOptions
    → String
    → ℕ
    → (parent : Option String) → Repo × Result DoSessionStorage
fork_loaded repo source (err e) options child_id now parent = (repo, err e)
fork_loaded repo source (ok loaded) options child_id now parent =
    let m = metadata_of child_id now "" (some (or_else parent source.id)) in
    if_free repo child_id (
      forked_into repo (create m (keys_of repo child_id))
        (create_fork_mutations loaded.state options))

unfoldable pub fork_session :
    Repo
    → (source : DoSessionMetadata) → ForkOptions
    → String
    → ℕ
    → (parent : Option String) → Repo × Result DoSessionStorage
fork_session repo source options child_id now parent =
    fork_loaded repo source (load (keys_of repo source.id) source.id) options child_id now parent

unfoldable pub open_session : Repo → DoSessionMetadata → Result DoSessionStorage
open_session repo m = load (keys_of repo m.id) m.id

unfoldable pub delete_session : Repo → DoSessionMetadata → Repo
delete_session repo m = remove m.id repo
