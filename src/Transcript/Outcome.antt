-- ===== src/Transcript/Outcome.antt =====
-- internal/transcript/result.go: `FailedCriticalOutcome`, the rejection of an outcome tool that still
-- stands at the end of a transcript. The JSON decoders of a line and of a string are parameters.
pub mod Lone
pub mod Calls
pub mod Laws
mod Examples
use tatara_claude_code_wrapp.Common.{
  ◌&&◌, not, Bool, true, false, List, [], ◌∷◌, Option, none, some, String, if◌then◌else◌, is_empty,
  str_eq, lookup, insert,
}
use tatara_claude_code_wrapp.Transcript.Scan.{Transcript, unopened, scanned, scan}
use tatara_claude_code_wrapp.Transcript.ToolName.{bare_tool_name}
use tatara_claude_code_wrapp.Transcript.Tokens.{is_json_string}

-- `content` is raw.
pub record OutcomeBlock : Type 0 where
  pub type : String
  pub id : String
  pub name : String
  pub tool_use_id : String
  pub is_error : Bool
  pub content : String

pub record OutcomeLine : Type 0 where
  pub type : String
  pub message : Option (List OutcomeBlock)

pub record Decoders : Type 0 where
  pub line : String → Option OutcomeLine
  pub text : String → Option String

-- `criticalOutcomeTools`.
abbrev pub is_critical : String → Bool
is_critical name = str_eq name "submit_outcome"

abbrev pub text_or : String → Option String → String
text_or raw none = raw
text_or raw (some s) = s

unfoldable pub json_content_string : Decoders → String → String
json_content_string dec raw = if is_json_string raw then text_or raw (dec.text raw) else raw

-- The three maps of the scan.
pub record Outcomes : Type 0 where
  pub tool_use_by_id : List (String × String)
  pub last_result : List (String × String)
  pub last_failed : List (String × Bool)

abbrev pub no_outcomes : Outcomes
no_outcomes = record { tool_use_by_id = []; last_result = []; last_failed = [] }

unfoldable pub note_use : OutcomeBlock → Outcomes → Outcomes
note_use b o =
    if is_critical (bare_tool_name b.name) && not (is_empty b.id)
    then record o { tool_use_by_id = insert b.id (bare_tool_name b.name) o.tool_use_by_id }
    else o

unfoldable pub note_result : Decoders → OutcomeBlock → Option String → Outcomes → Outcomes
note_result dec b none o = o
note_result dec b (some name) o =
    if b.is_error
    then record o {
      last_result = insert name (json_content_string dec b.content) o.last_result;
      last_failed = insert name true o.last_failed;
    }
    else record o {
      last_result = insert name "" o.last_result;
      last_failed = insert name false o.last_failed;
    }

abbrev pub call_of : String → Outcomes → Option String
call_of id o = lookup id o.tool_use_by_id

unfoldable pub note_block : Decoders → OutcomeBlock → Outcomes → Outcomes
unfolding note_use note_result
note_block dec b o =
    if str_eq b.type "tool_use"
    then note_use b o
    else if str_eq b.type "tool_result" && not (is_empty b.tool_use_id)
    then note_result dec b (call_of b.tool_use_id o) o
    else o

unfoldable pub note_blocks : Decoders → List OutcomeBlock → Outcomes → Outcomes
note_blocks dec [] o = o
note_blocks dec (b ∷ bs) o = note_blocks dec bs (note_block dec b o)

abbrev pub blocks_in : Option OutcomeLine → List OutcomeBlock
blocks_in none = []
blocks_in (some l) = elim l.message [ none ↦ [] | some bs ↦ bs ]

abbrev pub text_of : Option String → String
text_of none = ""
text_of (some s) = s

-- The loop over the map. Only one name is critical, so the order of the map does not matter.
unfoldable pub first_failed :
    List (String × Bool) → List (String × String) → Option (String × String)
first_failed [] results = none
first_failed ((name, failed) ∷ rest) results =
    let later = first_failed rest results in
    if failed then some (name, text_of (lookup name results)) else later

unfoldable pub verdict : Outcomes → Option (String × String)
unfolding first_failed
verdict o = first_failed o.last_failed o.last_result

-- Nothing is an error; what is found is the tool's name and the error text.
unfoldable pub failed_critical_outcome : Decoders → Transcript → Option (Option (String × String))
unfolding scan verdict
failed_critical_outcome dec unopened = none
failed_critical_outcome dec (scanned ls true) = none
failed_critical_outcome dec (scanned ls false) =
    some (verdict (scan (λ l. note_blocks dec (blocks_in (dec.line l))) ls no_outcomes))
