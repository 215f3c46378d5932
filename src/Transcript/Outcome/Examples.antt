-- ===== src/Transcript/Outcome/Examples.antt =====
-- internal/transcript/result.go: the theorem on an outcome that was rejected; behind it stand a result
-- of another tool, and a call that has no result yet.
use tatara_claude_code_wrapp.Common.{
  ◌≡◌, refl, true, false, [], ◌∷◌, none, some, str_eq, if◌then◌else◌,
}
use tatara_claude_code_wrapp.Transcript.Scan.{scanned}
use tatara_claude_code_wrapp.Transcript.ToolName.{bare_tool_name, behind_last}
use tatara_claude_code_wrapp.Transcript.Outcome.{OutcomeBlock, Decoders, failed_critical_outcome}
use tatara_claude_code_wrapp.Transcript.Outcome.Calls.{calls}
use tatara_claude_code_wrapp.Transcript.Outcome.Laws.{outcome_of, failed_outcome_decides}

abbrev call : OutcomeBlock
call = record {
  type = "tool_use";
  id = "toolu_1";
  name = "mcp__tatara__submit_outcome";
  tool_use_id = "";
  is_error = false;
  content = "";
}

abbrev rejected : OutcomeBlock
rejected = record {
  type = "tool_result";
  id = "";
  name = "";
  tool_use_id = "toolu_1";
  is_error = true;
  content = "[400]";
}

-- A result of another tool.
abbrev unrelated : OutcomeBlock
unrelated = record rejected { tool_use_id = "toolu_2"; is_error = false }

-- A line is a block, or none.
abbrev decoders : Decoders
decoders = record {
  line = λ l.
      if str_eq l "call"
      then some (record { type = "assistant"; message = some (call ∷ []) })
      else if str_eq l "result"
      then some (record { type = "user"; message = some (rejected ∷ []) })
      else if str_eq l "other"
      then some (record { type = "user"; message = some (unrelated ∷ []) })
      else none;
  text = λ raw. none;
}

failed_outcome_decides_example :
    failed_critical_outcome decoders
      (scanned ("call" ∷ "garbage" ∷ "result" ∷ "other" ∷ "call" ∷ []) false)
    ≡ some (outcome_of decoders rejected)
unfolding bare_tool_name behind_last calls
failed_outcome_decides_example =
    failed_outcome_decides decoders ("call" ∷ "garbage" ∷ "result" ∷ "other" ∷ "call" ∷ [])
      (call ∷ []) (unrelated ∷ call ∷ []) rejected refl refl (refl, (refl, tt))
