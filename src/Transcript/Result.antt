-- ===== src/Transcript/Result.antt =====
-- internal/transcript/result.go: what the session reads of a transcript. The JSON decoder, which
-- gives the view of a line or fails, is a parameter.
pub mod Laws
use text.Mathlib.Text.{starts_with}
use tatara_claude_code_wrapp.Common.{
  ◌&&◌, ◌||◌, not, Bool, true, false, List, [], ◌∷◌, Option, none, some, String, is_empty,
  if◌then◌else◌, str_eq, ◌+++◌,
}
use tatara_claude_code_wrapp.Transcript.Scan.{Transcript, unopened, scanned, scan}

-- `message` is nothing for a null pointer, else its stop reason.
pub record RoleLine : Type 0 where
  pub type : String
  pub message : Option String

abbrev pub is_message : String → Bool
is_message type = str_eq type "user" || str_eq type "assistant"

abbrev pub stop_of : Option String → String
stop_of none = ""
stop_of (some stop) = stop

abbrev pub note_message : Option RoleLine → String × String → String × String
note_message none acc = acc
note_message (some rl) acc = if is_message rl.type then (rl.type, stop_of rl.message) else acc

abbrev pub result_of {ℓ} : {A : Type ℓ} → A → Bool → Option A
result_of a true = none
result_of a false = some a

-- The role and the stop reason; nothing is an error.
unfoldable pub last_message : (String → Option RoleLine) → Transcript → Option (String × String)
unfolding scan
last_message decode unopened = none
last_message decode (scanned ls failed) =
    result_of (scan (λ l. note_message (decode l)) ls ("", "")) failed

-- `InterruptMarkerPrefix`.
abbrev pub interrupt_marker_prefix : String
interrupt_marker_prefix = "[Request interrupted by user"

pub record Block : Type 0 where
  pub type : String
  pub text : String

-- `message` is its raw content.
pub record InterruptLine : Type 0 where
  pub type : String
  pub message : Option String

unfoldable pub has_marker : List Block → Bool
has_marker [] = false
has_marker (b ∷ bs) =
    let rest = has_marker bs in
    if str_eq b.type "text" && starts_with b.text interrupt_marker_prefix then true else rest

abbrev pub marked : Option (List Block) → Bool
marked none = false
marked (some bs) = has_marker bs

-- The verdict on a conversation entry.
abbrev pub verdict : (String → Option (List Block)) → InterruptLine → Bool
verdict blocks il = elim il.message [
  | none ↦ false
  | some content ↦ str_eq il.type "user" && marked (blocks content)
]

abbrev pub note_interrupt : (String → Option (List Block)) → Option InterruptLine → Bool → Bool
note_interrupt blocks none interrupted = interrupted
note_interrupt blocks (some il) interrupted =
    if is_message il.type then verdict blocks il else interrupted

unfoldable pub was_interrupted :
    (String → Option InterruptLine) → (String → Option (List Block)) → Transcript → Bool
unfolding scan
was_interrupted decode blocks unopened = false
was_interrupted decode blocks (scanned ls failed) =
    if failed then false else scan (λ l. note_interrupt blocks (decode l)) ls false

pub record AssistantLine : Type 0 where
  pub type : String
  pub content : List Block
  pub usage : String
  pub stop_reason : String

unfoldable pub text_of : List Block → String
text_of [] = ""
text_of (b ∷ bs) = let rest = text_of bs in if str_eq b.type "text" then b.text +++ rest else rest

abbrev pub note_assistant :
    Option AssistantLine → String × String × String → String × String × String
note_assistant none acc = acc
note_assistant (some al) acc = if not (str_eq al.type "assistant") then acc else (
  if is_empty (text_of al.content) then acc.0 else text_of al.content,
  al.usage,
  al.stop_reason,
)

-- The text, the usage and the stop reason; nothing is an error.
unfoldable pub last_assistant :
    (String → Option AssistantLine) → Transcript → Option (String × String × String)
unfolding scan
last_assistant decode unopened = none
last_assistant decode (scanned ls failed) =
    result_of (scan (λ l. note_assistant (decode l)) ls ("", "", "")) failed
