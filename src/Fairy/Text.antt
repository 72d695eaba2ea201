-- ===== src/Fairy/Text.antt =====
-- The text of a message as the Fairy runtime reads it: server/internal/fairy/engine.go and
-- server/internal/fairy/media_input.go. Go's package strings is the record `Strings`.
use Prim.Native.String.{◌++◌, len, slice}
use zzzproject.Base.{
  ℕ, suc, String, Bool, true, false, ◌||◌, ◌&&◌, List, [], ◌∷◌, ltb, ◌==◌, starts_with,
  if◌then◌else◌,
}
use zzzproject.Protocol.{MessageSegment, get_string}

pub record Strings : Type 0 where
  pub trim_space : String → String
  pub to_lower : String → String
  pub fields : String → List String
  pub join : List String → String → String

pub record MessageText : Type 0 where
  pub text : String
  pub mentioned : Bool

abbrev at_mentions : String → MessageSegment → Bool
at_mentions user segment =
    get_string "qq" segment.fields == user
    || (get_string "user_id" segment.fields == user
        || get_string "target_id" segment.fields == user)

abbrev is_local_route : MessageSegment → Bool
is_local_route segment =
    segment.type == "agent_route" && get_string "route" segment.fields == "local"

-- The loop of messageText, from the text and the flag so far. A segment that routes to a local
-- agent ends it with no text and no mention.
message_text_from : String → List MessageSegment → MessageText → MessageText
message_text_from user [] sofar = sofar
message_text_from user (segment ∷ rest) sofar =
    let next =
      if segment.type == "text"
      then record sofar { text = sofar.text ++ get_string "text" segment.fields }
      else if segment.type == "at"
      then record sofar { mentioned = sofar.mentioned || at_mentions user segment }
      else sofar in
    let later = message_text_from user rest next in
    if is_local_route segment then record { text = ""; mentioned = false } else later

unfoldable pub message_text : List MessageSegment → String → MessageText
unfolding message_text_from
message_text segments user =
    message_text_from user segments (record { text = ""; mentioned = false })

pub data MediaInputKind : Type 0 where
  image_input record_input : MediaInputKind

-- The size and the duration are left out.
pub record MediaInput : Type 0 where
  pub kind : MediaInputKind
  pub url : String
  pub name : String
  pub mime_type : String

pub record MediaInputSummary : Type 0 where
  pub images : ℕ
  pub records : ℕ
  pub inputs : List MediaInput

unfoldable pub present : MediaInputSummary → Bool
present s = ltb 0 s.images || ltb 0 s.records

module _ (strings : Strings) where
  open strings use {trim_space, to_lower, fields, join}

  media_string : String → MessageSegment → String
  media_string key segment = trim_space (get_string key segment.fields)

  media_input_from_segment : MediaInputKind → MessageSegment → MediaInput
  unfolding media_string
  media_input_from_segment kind segment = record {
    kind = kind;
    url = media_string "url" segment;
    name = media_string "name" segment;
    mime_type = media_string "mime_type" segment;
  }

  -- The loop of summarizeMediaInputs; inputs are added at the end, so the rest follows.
  unfoldable pub summarize_media_inputs : List MessageSegment → MediaInputSummary
  unfolding media_input_from_segment
  summarize_media_inputs [] = record { images = 0; records = 0; inputs = [] }
  summarize_media_inputs (segment ∷ rest) =
      let later = summarize_media_inputs rest in
      if segment.type == "image"
      then record {
        images = suc later.images;
        records = later.records;
        inputs = media_input_from_segment image_input segment ∷ later.inputs;
      }
      else if segment.type == "record"
      then record {
        images = later.images;
        records = suc later.records;
        inputs = media_input_from_segment record_input segment ∷ later.inputs;
      }
      else later

  unfoldable pub command_trigger : String → Bool
  command_trigger text =
      let lower = to_lower (trim_space text) in
      starts_with lower "/fairy"
      || (starts_with lower "/zzz"
          || (starts_with lower "fairy "
              || (starts_with lower "zzz "
                  || (starts_with lower "zzz查询 " || starts_with lower "绝区零查询 "))))

  strip_first : String → String → List String → String
  strip_first value lower [] = value
  strip_first value lower (p ∷ ps) =
      let rest = strip_first value lower ps in
      if starts_with lower p then trim_space (slice value (len p) (len value)) else rest

  unfoldable pub normalize_trigger : String → String
  unfolding strip_first
  normalize_trigger text =
      let value = trim_space text in
      strip_first value (to_lower value) ("@fairy" ∷ "fairy：" ∷ "fairy:" ∷ "fairy," ∷ [])

  -- `(command, argument, ok)`
  abbrev command_of : List String → String × String × Bool
  command_of [] = ("", "", false)
  command_of (first ∷ []) =
      let lower = to_lower first in
      if lower == "/fairy" || lower == "fairy" then ("help", "", true) else ("", "", false)
  command_of (first ∷ second ∷ rest) =
      let lower = to_lower first in
      if lower == "/fairy" || lower == "fairy"
      then (to_lower second, join rest " ", true)
      else ("", "", false)

  unfoldable pub fairy_command : String → String × String × Bool
  fairy_command text = command_of (fields (trim_space text))
