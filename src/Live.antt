-- ===== src/Live.antt =====
-- packages/frontend/src/thread/live.ts: the console's view of the active thread, folded from the wire's
-- events. An entry's fields that the fold passes on unread stand in `payload`; the texts that format.ts
-- takes from a message or a tool's result stand in the event in their place.
use saku.Base.{
  ℕ, zero, suc, ◌+◌, String, Bool, true, false, not, ◌&&◌, ◌||◌, Option, none, some, List, [], ◌∷◌,
  ◌++◌, if◌then◌else◌, or_else, str_eq, filter, any, map, mem?, leb, ltb,
}
use saku.Base.Sort.{insert_by, sort_by}
use Prim.Native.String.{◌++◌ as str_append}
pub mod Loaded
pub mod Streaming
pub mod Tail
pub mod Reload
pub mod Tests

pub record Entry : Type 0 where
  pub id : Option String
  pub seq : Option ℕ
  pub kind : Option String
  pub payload : String

pub record TrailData : Type 0 where
  pub entries : List Entry
  pub tail_seq : ℕ

pub data TrailState : Type 0 where
  unloaded : TrailState
  failure : (message : String) → TrailState
  success : TrailData → TrailState

pub data ToolState : Type 0 where
  running done failed : ToolState

pub record LiveTool : Type 0 where
  pub args : Option String
  pub call_id : String
  pub name : String
  pub partial : Option String
  pub result : Option String
  pub state : ToolState

pub record LiveRegion : Type 0 where
  pub message : Option String
  pub notice : Option String
  pub thinking : Option String
  pub tools : List LiveTool

pub record Live : Type 0 where
  pub pending : List Entry
  pub trail : TrailState
  pub live : LiveRegion

abbrev pub empty_region : LiveRegion
empty_region = record { message = none; notice = none; thinking = none; tools = [] }

abbrev pub empty_live : Live
empty_live = record { pending = []; trail = TrailState.unloaded; live = empty_region }

abbrev pub entry_id : Entry → String
entry_id e = or_else e.id ""

-- An entry without a sequence number stands last: `Number.MAX_SAFE_INTEGER`.
unfoldable pub entry_seq : Entry → ℕ
entry_seq e = or_else e.seq 9007199254740991

-- `dedupeById`, with the identifiers seen so far.
unfoldable pub dedupe : List String → List Entry → List Entry
dedupe seen [] = []
dedupe seen (e ∷ es) =
    let old = dedupe seen es in
    let new = dedupe (entry_id e ∷ seen) es in if mem? (entry_id e) seen then old else e ∷ new

-- `Array.prototype.at(-1)`
unfoldable pub last : List Entry → Option Entry
last [] = none
last (e ∷ []) = some e
last (e ∷ f ∷ es) = last (f ∷ es)

abbrev pub is_message : Entry → Bool
is_message e = elim e.kind [ none ↦ false | some k ↦ str_eq k "message" ]

unfoldable pub max : ℕ → ℕ → ℕ
max a b = if ltb a b then b else a

-- The live region, without its copy of a message that has landed.
abbrev pub clear_message : LiveRegion → LiveRegion
clear_message region = record region { message = none; thinking = none }

abbrev pub is_last : String → Option Entry → Bool
is_last id none = false
is_last id (some e) = str_eq (entry_id e) id

abbrev pub is_seen : Option ℕ → ℕ → Bool
is_seen none tail_seq = false
is_seen (some n) tail_seq = leb n tail_seq

unfoldable pub fold_entry_appended : Live → Entry → Live
fold_entry_appended state e = elim state.trail [
  | TrailState.success loaded ↦
      if is_last (entry_id e) (last loaded.entries) || is_seen e.seq loaded.tail_seq
      then state
      else record state {
        live = if is_message e then clear_message state.live else state.live;
        trail = TrailState.success record {
          entries = loaded.entries ++ e ∷ [];
          tail_seq = max loaded.tail_seq (or_else e.seq 0);
        };
      }
  | TrailState.unloaded ↦ record state { pending = state.pending ++ e ∷ [] }
  | TrailState.failure message ↦ record state { pending = state.pending ++ e ∷ [] }
]

-- `foldLiveTool`: every tool of that call.
abbrev pub fold_tool : String → (LiveTool → LiveTool) → List LiveTool → List LiveTool
fold_tool id next tools =
    map (λ (tool : LiveTool). if str_eq tool.call_id id then next tool else tool) tools

abbrev pub on_live : Live → LiveRegion → Live
on_live state region = record state { live = region }

abbrev pub unless_empty : String → Option String → Option String
unless_empty text old = if str_eq text "" then old else some text

-- An update without arguments keeps the arguments of the start.
abbrev pub refreshed : Option String → String → LiveTool → LiveTool
refreshed none partial tool = record tool { partial = some partial }
refreshed (some args) partial tool = record tool { args = some args; partial = some partial }

pub data SessionEvent : Type 0 where
  entry_appended : Entry → SessionEvent
  message_start message_end : (text : String) → SessionEvent
  message_update : (text : String) → (thinking : String) → SessionEvent
  tool_execution_start : (args : Option String) → (id : String) → (name : String) → SessionEvent
  tool_execution_update : (args : Option String) → (partial : String) → (id : String) → SessionEvent
  tool_execution_end : (is_error : Bool) → (result : String) → (id : String) → SessionEvent
  settled compaction_end unhandled : SessionEvent
  compaction_start : (reason : String) → SessionEvent

unfoldable pub fold_live : Live → SessionEvent → Live
fold_live state SessionEvent.compaction_end = on_live state (record state.live { notice = none })
fold_live state (SessionEvent.compaction_start reason) =
    on_live state
      (record state.live { notice = some (str_append "compacting (" (str_append reason ")")) })
fold_live state (SessionEvent.entry_appended e) = fold_entry_appended state e
fold_live state (SessionEvent.message_end text) =
    on_live state (record state.live { message = some text })
fold_live state (SessionEvent.message_start text) =
    on_live state (record state.live { message = some text })
fold_live state (SessionEvent.message_update text thinking) = on_live state (record state.live {
  message = unless_empty text state.live.message;
  thinking = unless_empty thinking state.live.thinking;
})
fold_live state SessionEvent.settled = on_live state empty_region
fold_live state (SessionEvent.tool_execution_end is_error result id) =
    on_live state (record state.live {
      tools =
          fold_tool id
            (λ tool. record tool {
              result = some result;
              state = if is_error then ToolState.failed else ToolState.done;
            })
            state.live.tools;
    })
fold_live state (SessionEvent.tool_execution_start args id name) =
    on_live state (record state.live {
      tools =
          state.live.tools
          ++ record {
            args = args;
            call_id = id;
            name = name;
            partial = none;
            result = none;
            state = ToolState.running;
          }
            ∷ [];
    })
fold_live state (SessionEvent.tool_execution_update args partial id) =
    on_live state
      (record state.live { tools = fold_tool id (refreshed args partial) state.live.tools })
fold_live state SessionEvent.unhandled = state

unfoldable pub fold_all : Live → List SessionEvent → Live
fold_all state [] = state
fold_all state (event ∷ events) = fold_all (fold_live state event) events

-- `merged.reduce(…)`
unfoldable pub tail_of : ℕ → List Entry → ℕ
tail_of n [] = n
tail_of n (e ∷ es) = tail_of (max n (or_else e.seq 0)) es

abbrev pub merge : Live → List Entry → List Entry
merge state entries = sort_by entry_seq (dedupe [] (entries ++ state.pending))

unfoldable pub fold_trail_loaded : Live → List Entry → ℕ → Live
fold_trail_loaded state entries tail_seq =
    let merged = merge state entries in
    record {
      pending = [];
      trail = TrailState.success record { entries = merged; tail_seq = tail_of tail_seq merged };
      live = if any is_message merged then clear_message state.live else state.live;
    }
