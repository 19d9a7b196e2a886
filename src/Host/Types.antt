-- ===== src/Host/Types.antt =====
-- session-machine.ts: the machine's states, events and replies, and the host that it drives.
use saku.Base.{ℕ, String, Bool, Option, List, [], ◌∷◌, ◌++◌}
use saku.Hub.Types.{ThreadState}

pub data HostState : Type 0 where
  compacting : (custom_instructions : Option String) → HostState
  crashed : (message : String) → HostState
  idle interrupted : HostState
  working : (text : String) → (images : List String) → HostState

pub record Model : Type 0 where
  pub provider : String
  pub id : String

-- What a seam answers: its value, or the message of its failure.
pub data Outcome {ℓ} (A : Type ℓ) : Type ℓ where
  done : A → Outcome A
  failed : (message : String) → Outcome A

pub data HostReply : Type 0 where
  reply_ok : (level : Option String) → Option Model → HostReply
  reply_failed : (message : String) → HostReply

pub data Reason : Type 0 where
  manual threshold overflow : Reason

-- The entries that the host itself puts on the trail.
pub data HostEntry : Type 0 where
  thinking_level_change : (level : String) → HostEntry
  model_change : (provider : String) → (model_id : String) → HostEntry
  compaction : (summary : String) → HostEntry
  name_change : (name : String) → HostEntry

pub data WireEvent : Type 0 where
  entry_appended : HostEntry → WireEvent
  settled : WireEvent
  compaction_start : Reason → WireEvent
  compaction_end : Reason → (aborted : Bool) → (error : Option String) → WireEvent

-- The machine with its refs: what it emitted and put on the trail, oldest first, and the state that the
-- registry holds.
pub record Host : Type 0 where
  pub machine : HostState
  pub model : Option Model
  pub thinking_level : String
  pub compaction_enabled : Bool
  pub appended : List HostEntry
  pub emitted : List WireEvent
  pub pushed : ThreadState
  pub aborts : ℕ

-- `prepareCompaction`, of the agent library: it fails, finds nothing to compact, or prepares.
pub data Preparation : Type 0 where
  unprepared : (message : String) → Preparation
  nothing_to_compact prepared : Preparation

-- `wireStateOf`: crashed and compacting look idle.
unfoldable pub wire_state_of : HostState → ThreadState
wire_state_of (HostState.working _ _) = ThreadState.working
wire_state_of HostState.interrupted = ThreadState.interrupted
wire_state_of _ = ThreadState.idle

pub data SessionHostState : Type 0 where
  on_wire : ThreadState → SessionHostState
  crashed_host : SessionHostState

unfoldable pub host_state_of : HostState → SessionHostState
unfolding wire_state_of
host_state_of (HostState.crashed _) = SessionHostState.crashed_host
host_state_of state = SessionHostState.on_wire (wire_state_of state)

abbrev pub emit : Host → WireEvent → Host
emit h e = record h { emitted = h.emitted ++ e ∷ [] }

-- `trail.appendEntry` with the event that tells of it.
abbrev pub append : Host → HostEntry → Host
append h e = record h {
  appended = h.appended ++ e ∷ [];
  emitted = h.emitted ++ WireEvent.entry_appended e ∷ [];
}

abbrev pub push_state : Host → ThreadState → Host
push_state h state = record h { pushed = state }

abbrev pub become : Host → HostState → Host
become h state = record h { machine = state }
