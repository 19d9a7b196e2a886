-- ===== src/Hub/Registry.antt =====
-- registry.ts: the thread index, in memory and as stored. The identifier of a new thread and the time
-- are arguments.
use saku.Base.{
  ℕ, String, Bool, true, false, Option, none, some, List, [], ◌∷◌, if◌then◌else◌, or_else,
}
use saku.Base.Map.{Map, get, put, remove, has, values}
use saku.Base.Sort.{insert_by, sort_by}
use saku.Hub.Types.{ThreadMode, ThreadState, ThreadEnvState, EnvHandle, HubRecord, ThreadInfo}

-- `stored` is what the key-value store holds under `threads/<id>/record`.
pub record Registry : Type 0 where
  pub records : Map HubRecord
  pub stored : Map HubRecord
  pub states : Map ThreadState
  pub tail_seqs : Map ℕ

-- `new Map(loaded.map(…))`: each record under its own id, a later one over an earlier one.
unfoldable pub load_records : Map HubRecord → Map HubRecord → Map HubRecord
load_records records [] = records
load_records records ((key, r) ∷ rest) = load_records (put r.id r records) rest

unfoldable pub load_states : Map ThreadState → Map HubRecord → Map ThreadState
load_states states [] = states
load_states states ((key, r) ∷ rest) = load_states (put r.id ThreadState.idle states) rest

-- `HubRegistry.make`: the caches are not stored.
unfoldable pub make : Map HubRecord → Registry
make stored = record {
  records = load_records [] stored;
  stored = stored;
  states = load_states [] stored;
  tail_seqs = [];
}

-- The private `patch`.
unfoldable pub patch : Registry → String → (HubRecord → HubRecord) → Registry
patch reg id fn = elim (get id reg.records) [
  | none ↦ reg
  | some r ↦ record reg {
    records = put id (fn r) reg.records;
    stored = put (fn r).id (fn r) reg.stored;
  }
]

pub record NewThread : Type 0 where
  pub name : String
  pub cwd : Option String
  pub mode : Option ThreadMode
  pub auto_name : Option Bool

abbrev pub is_sandbox : ThreadMode → Bool
is_sandbox ThreadMode.sandbox = true
is_sandbox _ = false

abbrev pub wants_sandbox : Option ThreadMode → Bool
wants_sandbox none = false
wants_sandbox (some mode) = is_sandbox mode

unfoldable pub new_record : String → ℕ → NewThread → HubRecord
new_record id now input = record {
  id = id;
  name = input.name;
  cwd = if wants_sandbox input.mode then none else input.cwd;
  mode = or_else input.mode ThreadMode.local;
  auto_name = or_else input.auto_name false;
  created_at = now;
  session_id = none;
  env = if wants_sandbox input.mode then ThreadEnvState.stopped else ThreadEnvState.ready;
  remote_machine_id = none;
  env_handle = none;
  archived_at = none;
}

unfoldable pub create : Registry → HubRecord → Registry
create reg r = record {
  stored = put r.id r reg.stored;
  records = put r.id r reg.records;
  states = put r.id ThreadState.idle reg.states;
  tail_seqs = put r.id 0 reg.tail_seqs;
}

unfoldable pub delete : Registry → String → Registry
delete reg id =
    if has id reg.records
    then record {
      records = remove id reg.records;
      states = remove id reg.states;
      tail_seqs = remove id reg.tail_seqs;
      stored = remove id reg.stored;
    }
    else reg

unfoldable pub list : Registry → List HubRecord
unfolding sort_by insert_by
list reg = sort_by (λ (r : HubRecord). r.created_at) (values reg.records)

unfoldable pub set_env : Registry → String → ThreadEnvState → Registry
set_env reg id env = patch reg id (λ r. record r { env = env })

unfoldable pub set_env_handle : Registry → String → Option EnvHandle → Registry
set_env_handle reg id handle = patch reg id (λ r. record r { env_handle = handle })

unfoldable pub set_remote_machine_id : Registry → String → Option String → Registry
set_remote_machine_id reg id machine = patch reg id (λ r. record r { remote_machine_id = machine })

unfoldable pub set_state : Registry → String → ThreadState → Registry
set_state reg id state = record reg { states = put id state reg.states }

unfoldable pub set_tail_seq : Registry → String → ℕ → Registry
set_tail_seq reg id tail_seq = record reg { tail_seqs = put id tail_seq reg.tail_seqs }

-- The state and the tail of a thread, idle and 0 where none was reported.
unfoldable pub state_of : Registry → String → ThreadState
state_of reg id = or_else (get id reg.states) ThreadState.idle

unfoldable pub info_from : Registry → String → HubRecord → ThreadInfo
info_from reg id r = record {
  archived_at = r.archived_at;
  cwd = r.cwd;
  env = r.env;
  id = r.id;
  mode = r.mode;
  name = r.name;
  session_id = r.session_id;
  state = state_of reg id;
  tail_seq = or_else (get id reg.tail_seqs) 0;
}

unfoldable pub to_info : Registry → String → Option ThreadInfo
to_info reg id = elim (get id reg.records) [ none ↦ none | some r ↦ some (info_from reg id r) ]
