-- ===== src/PiSessions/Common.antt =====
-- pi-sessions/common.ts: the lines of a session file, the text of a message, and the list view.
use saku.Base.{
  ℕ, ◌+◌, String, Bool, true, false, ◌&&◌, ◌||◌, Option, none, some, List, [], ◌∷◌, or_else,
  is_some, str_eq, if◌then◌else◌,
}
use saku.Base.Text.{trim, is_empty_text}
use saku.PiSessions.Json.{Json, JsonItems, JsonFields, Platform, field, text_field}
use Prim.Native.String.{[] as ε, ◌∷◌ as ◌::◌}

pub record SessionHeader : Type 0 where
  pub id : String
  pub cwd : String
  pub created_at : ℕ

pub record ScannedSession : Type 0 where
  pub id : String
  pub cwd : String
  pub name : Option String
  pub created_at : ℕ
  pub message_count : ℕ
  pub first_message : String

abbrev pub is_text : String → Option Json → Bool
is_text wanted (some (Json.text s)) = str_eq s wanted
is_text wanted _ = false

-- `isJsonLine`: an object, which is neither null nor an array.
abbrev pub as_object : Option Json → Option JsonFields
as_object (some (Json.object fields)) = some fields
as_object _ = none

unfoldable pub append_text : String → String → String
append_text ε t = t
append_text (c :: s) t = c :: append_text s t

-- A text that is not empty.
abbrev pub when_text : String → Option String
when_text s = if is_empty_text s then none else some s

-- `obj.type === "text" && isString(obj.text)`, or an image with its data and type.
abbrev pub is_block_of : JsonFields → Bool
is_block_of fields =
    (is_text "text" (field "type" fields) && is_some (text_field "text" fields))
    || (is_text "image" (field "type" fields)
        && is_some (text_field "data" fields)
        && is_some (text_field "mimeType" fields))

abbrev pub is_content_block : Json → Bool
is_content_block (Json.object fields) = is_block_of fields
is_content_block _ = false

abbrev pub every_block : JsonItems → Bool
every_block JsonItems.empty = true
every_block (JsonItems.item block blocks) = is_content_block block && every_block blocks

abbrev pub is_message_content : Option Json → Bool
is_message_content (some (Json.text s)) = true
is_message_content (some (Json.array blocks)) = every_block blocks
is_message_content _ = false

module _ (js : Platform) where
  -- A line that is blank, malformed or not an object is skipped.
  unfoldable pub parse_line : String → Option JsonFields
  unfolding trim
  parse_line line = elim (is_empty_text (trim line)) [
    | true ↦ none
    | false ↦ as_object (js.json_parse (trim line))
  ]

  unfoldable pub to_epoch_ms : Option Json → ℕ
  to_epoch_ms (some (Json.number ms)) = ms
  to_epoch_ms (some (Json.text s)) = or_else (js.date_parse s) 0
  to_epoch_ms _ = 0

  -- The texts of the text blocks: `filter` and `map`.
  abbrev pub block_texts : JsonItems → List String
  block_texts JsonItems.empty = []
  block_texts (JsonItems.item (Json.object fields) blocks) =
      let rest = block_texts blocks in
      if is_text "text" (field "type" fields) then js.joined (field "text" fields) ∷ rest else rest
  block_texts (JsonItems.item _ blocks) = block_texts blocks

  unfoldable pub join_spaced : List String → String
  unfolding append_text
  join_spaced [] = ""
  join_spaced (s ∷ []) = s
  join_spaced (s ∷ t ∷ texts) = append_text s (append_text " " (join_spaced (t ∷ texts)))

  unfoldable pub text_content : Json → String
  unfolding join_spaced
  text_content (Json.text s) = s
  text_content (Json.array blocks) = join_spaced (block_texts blocks)
  text_content _ = ""

  -- `message.content ?? ""`
  abbrev pub content_text : Option Json → String
  content_text none = ""
  content_text (some Json.null) = ""
  content_text (some content) = text_content content

  abbrev pub message_text : Option JsonFields → Option String
  message_text none = none
  message_text (some message) =
      if is_text "user" (field "role" message) || is_text "assistant" (field "role" message)
      then when_text (content_text (field "content" message))
      else none

  unfoldable pub first_message_of : JsonFields → Option String
  first_message_of line = message_text (as_object (field "message" line))

  abbrev pub header_of : Bool → Option String → JsonFields → Option SessionHeader
  header_of true (some id) line = some (record {
    id = id;
    cwd = or_else (text_field "cwd" line) "";
    created_at = to_epoch_ms (field "timestamp" line);
  })
  header_of _ _ line = none

  unfoldable pub parse_v3_header : JsonFields → Option SessionHeader
  unfolding to_epoch_ms
  parse_v3_header line =
      header_of (is_text "session" (field "type" line)) (text_field "id" line) line

-- `interface SessionLineScan`: where a format has its names and messages.
pub record SessionLineScan : Type 0 where
  pub is_name : JsonFields → Bool
  pub name_of : JsonFields → Option String
  pub is_message : JsonFields → Bool

-- The variables of the scan.
pub record ListView : Type 0 where
  pub name : Option String
  pub message_count : ℕ
  pub first_message : String

-- The lines that the loops start at.
abbrev pub behind_header : List String → List String
behind_header [] = []
behind_header (header ∷ lines) = lines

abbrev pub no_view : ListView
no_view = record { name = none; message_count = 0; first_message = "" }

module _ (js : Platform) where
  -- The first text stays: `if (firstMessage.length === 0) firstMessage = firstMessageOf(obj) ?? ""`.
  unfoldable pub keep_first : String → JsonFields → String
  unfolding first_message_of text_content
  keep_first first line =
      if is_empty_text first then or_else (first_message_of js line) "" else first

  unfoldable pub scan_line : SessionLineScan → ListView → JsonFields → ListView
  unfolding keep_first trim
  scan_line scan view line =
      if scan.is_name line
      then record view { name = when_text (trim (or_else (scan.name_of line) "")) }
      else if scan.is_message line
      then record view {
        message_count = view.message_count + 1;
        first_message = keep_first view.first_message line;
      }
      else view

  abbrev pub scan_decoded : SessionLineScan → ListView → Option JsonFields → ListView
  scan_decoded scan view none = view
  scan_decoded scan view (some line) = scan_line scan view line

  -- The loop over the lines behind the header.
  unfoldable pub scan_rest : SessionLineScan → ListView → List String → ListView
  scan_rest scan view [] = view
  scan_rest scan view (line ∷ lines) =
      scan_rest scan (scan_decoded scan view (parse_line js line)) lines

  abbrev pub summary_of : SessionHeader → ListView → ScannedSession
  summary_of header view = record {
    id = header.id;
    cwd = header.cwd;
    name = view.name;
    created_at = header.created_at;
    message_count = view.message_count;
    first_message =
        if is_empty_text view.first_message then "(no messages)" else view.first_message;
  }

  unfoldable pub scan_lines : List String → SessionLineScan → SessionHeader → ScannedSession
  unfolding scan_rest
  scan_lines lines scan header = summary_of header (scan_rest scan no_view (behind_header lines))
