-- ===== src/PiSessions/Json.antt =====
-- JSON values as `JSON.parse` gives them: an object's keys are distinct. A number is a natural one, as
-- the readers use them only as times.
use saku.Base.{ℕ, Bool, String, Option, none, some, if◌then◌else◌, str_eq}

mutual
  pub data Json : Type 0 where
    null : Json
    boolean : Bool → Json
    number : ℕ → Json
    text : String → Json
    array : JsonItems → Json
    object : JsonFields → Json

  pub data JsonItems : Type 0 where
    empty : JsonItems
    item : Json → JsonItems → JsonItems

  pub data JsonFields : Type 0 where
    blank : JsonFields
    with_field : String → Json → JsonFields → JsonFields

-- What the readers take from the platform: `JSON.parse` (`none` where it throws), the text of the
-- fields that are passed on unread, `Date.parse` (`none` for NaN), and what `join` makes of a value.
pub record Platform : Type 0 where
  pub json_parse : String → Option Json
  pub json_text : JsonFields → String
  pub date_parse : String → Option ℕ
  pub joined : Option Json → String

-- `obj.key`
unfoldable pub field : String → JsonFields → Option Json
field k blank = none
field k (with_field j v fields) = if str_eq j k then some v else field k fields

-- `isString`
abbrev pub as_text : Option Json → Option String
as_text (some (text s)) = some s
as_text _ = none

abbrev pub text_field : String → JsonFields → Option String
text_field k fields = as_text (field k fields)

-- `const { k: _, ...rest } = obj`
unfoldable pub without_field : String → JsonFields → JsonFields
without_field k blank = blank
without_field k (with_field j v fields) =
    let rest = without_field k fields in if str_eq j k then rest else with_field j v rest

-- `obj.key = value`: a key that is there keeps its place.
unfoldable pub set_field : String → Json → JsonFields → JsonFields
set_field k value blank = with_field k value blank
set_field k value (with_field j v fields) =
    if str_eq j k then with_field k value fields else with_field j v (set_field k value fields)
