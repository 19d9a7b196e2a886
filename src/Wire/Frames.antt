-- ===== src/Wire/Frames.antt =====
-- envelope.ts, hello.ts and transport.ts: the frames and the lines that carry them. Payloads and events
-- pass unread and are texts; so is a command, but for whether it is a session command.
use saku.Base.{ℕ, String, Bool, true, false, Option, none, some}
use saku.Base.Text.{trim, is_empty_text}
use saku.PiSessions.Json.{Json, field}
use saku.PiSessions.Common.{is_text}

pub data Command : Type 0 where
  session_command hub_command : String → Command

-- What a console sends.
pub data ClientFrame : Type 0 where
  hello : (version token : String) → ClientFrame
  command : (id : Option String) → (thread_id : Option String) → Command → ClientFrame

-- `WireEvent`
pub data ServerFrame : Type 0 where
  hello_ok : (pid : ℕ) → (version : String) → ServerFrame
  response_ok : (id payload : String) → ServerFrame
  response_error : (id error : String) → ServerFrame
  event : (thread_id event : String) → ServerFrame
  thread_changed : (thread : String) → ServerFrame
  error : (message : String) → ServerFrame
  pong : ServerFrame

-- A raw message; `other` is no socket message.
pub data SocketData : Type 0 where
  text : String → SocketData
  binary : (decoded : String) → SocketData
  blob other : SocketData

-- What comes from outside: `JSON.parse` (`none` where it throws), and the decoding of the schemas.
pub record Codec : Type 0 where
  pub json_parse : String → Option Json
  pub decode_client : Option Json → Option ClientFrame
  pub decode_server : Option Json → Option ServerFrame

-- The line of a message; a blob is refused.
abbrev pub decode_frame : SocketData → Option String
decode_frame (SocketData.text line) = some line
decode_frame (SocketData.binary line) = some line
decode_frame _ = none

abbrev pub is_socket_message : SocketData → Bool
is_socket_message SocketData.other = false
is_socket_message _ = true

abbrev pub wire_version : String
wire_version = "0.3.0"

-- `isTaggedFrame(first) && first._tag === "ping"`
abbrev pub is_ping : Option Json → Bool
is_ping (some (Json.object fields)) = is_text "ping" (field "_tag" fields)
is_ping _ = false

module _ (codec : Codec) where
  abbrev pub defined : Option Json → Option (Option Json)
  defined none = none
  defined (some value) = some (some value)

  -- A blank line parses to `undefined`; `none` is a throw.
  unfoldable pub parse_frame : String → Option (Option Json)
  unfolding trim
  parse_frame line = elim (is_empty_text (trim line)) [
    | true ↦ some none
    | false ↦ defined (codec.json_parse (trim line))
  ]

  abbrev pub parse_line : Option String → Option (Option Json)
  parse_line none = none
  parse_line (some line) = parse_frame line

  unfoldable pub parse_data : SocketData → Option (Option Json)
  unfolding parse_frame
  parse_data raw = parse_line (decode_frame raw)
