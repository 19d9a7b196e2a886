-- ===== src/Hub/Types.antt =====
-- The hub's records: registry.ts, worker-ref.ts, provisioner.ts and wire/src/thread.ts.
use saku.Base.{ℕ, String, Bool, Option}

pub data ThreadMode : Type 0 where
  local sandbox any : ThreadMode

pub data ThreadState : Type 0 where
  idle working interrupted : ThreadState

pub data ThreadEnvState : Type 0 where
  stopped provisioning ready error : ThreadEnvState

-- The connection handle of an env: its JSON text, which the hub only passes on.
abbrev pub EnvHandle : Type 0
EnvHandle = String

pub record HubRecord : Type 0 where
  pub id : String
  pub name : String
  pub cwd : Option String
  pub mode : ThreadMode
  pub auto_name : Bool
  pub created_at : ℕ
  pub session_id : Option String
  pub env : ThreadEnvState
  pub remote_machine_id : Option String
  pub env_handle : Option EnvHandle
  pub archived_at : Option ℕ

pub record ThreadInfo : Type 0 where
  pub archived_at : Option ℕ
  pub cwd : Option String
  pub env : ThreadEnvState
  pub id : String
  pub mode : ThreadMode
  pub name : String
  pub session_id : Option String
  pub state : ThreadState
  pub tail_seq : ℕ

pub record WorkerReport : Type 0 where
  pub state : Option ThreadState
  pub session_id : Option (Option String)  -- absent, or null, or an id
  pub name : Option String
  pub tail_seq : Option ℕ

pub data HubErrorKind : Type 0 where
  registry worker provisioner resolution skills : HubErrorKind
  pi_sessions projects command startup : HubErrorKind

-- The tags of the session commands; what they carry goes to the worker unread.
pub data SessionCommand : Type 0 where
  prompt steer follow_up abort set_steering_mode set_follow_up_mode compact : SessionCommand
  set_auto_compaction get_available_models set_model get_available_thinking_levels : SessionCommand
  set_thinking_level get_entries branch get_session_stats set_session_name : SessionCommand
  get_state : SessionCommand

-- What the hub pushes to its subscribers.
pub data HubEvent : Type 0 where
  thread_changed : ThreadInfo → HubEvent
  session_event : (thread_id : String) → (event : String) → HubEvent

-- The calls that the hub makes of its seams, the workers and the provisioner.
pub data SeamCall : Type 0 where
  worker_create worker_delete : (thread_id : String) → SeamCall
  worker_set_env_handle : (thread_id : String) → Option EnvHandle → SeamCall
  worker_command : (thread_id : String) → SessionCommand → SeamCall
  provisioner_ensure provisioner_release :
      (thread_id : String) → (remote_machine_id : Option String) → Option EnvHandle → SeamCall

pub data Answer {ℓ} (A : Type ℓ) : Type ℓ where
  ok : A → Answer A
  fail : HubErrorKind → Answer A
