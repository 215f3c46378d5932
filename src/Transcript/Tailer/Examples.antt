-- ===== src/Transcript/Tailer/Examples.antt =====
-- internal/transcript/tailer.go: the theorems on a turn that starts a subagent and reports an issue.
use tatara_claude_code_wrapp.Common.{
  ◌≡◌, refl, ◌++◌, true, false, List, [], ◌∷◌, none, some, String, str_eq, if◌then◌else◌,
}
use tatara_claude_code_wrapp.Transcript.Labels.{internal_issue_tool_name}
use tatara_claude_code_wrapp.Transcript.Tailer.State.{
  TranscriptEntry, ContentBlock, readable, Decoders, Wiring, Tailer, new_tailer,
}
use tatara_claude_code_wrapp.Transcript.Tailer.Steps.{drain_internal_issues}
use tatara_claude_code_wrapp.Transcript.Tailer.Line.{Line, process_lines}
use tatara_claude_code_wrapp.Transcript.Tailer.Tasks.{IsTracked, tracked}
use tatara_claude_code_wrapp.Transcript.Tailer.Bounds.{AreKnown, labelled}
use tatara_claude_code_wrapp.Transcript.Tailer.Ledger.{reported}
use tatara_claude_code_wrapp.Transcript.Tailer.Drain.{drain-process_lines}

abbrev no_block : ContentBlock
no_block = record {
  type = "text";
  text = "";
  thinking = "";
  id = "";
  name = "";
  input = "";
  tool_use_id = "";
  is_error = false;
}

abbrev block_of : String → ContentBlock
block_of raw =
    if str_eq raw "task"
    then record no_block { type = "tool_use"; id = "toolu_1"; name = "Task" }
    else if str_eq raw "issue"
    then record no_block { type = "tool_use"; id = "toolu_2"; name = internal_issue_tool_name }
    else if str_eq raw "result"
    then record no_block { type = "tool_result"; tool_use_id = "toolu_2" }
    else no_block

-- Every line carries the same three blocks.
abbrev said : TranscriptEntry
said = record {
  type = "assistant";
  timestamp = "";
  operation = "";
  content = "";
  message = some (record {
    role = "assistant";
    content = "task" ∷ "issue" ∷ "result" ∷ [];
    stop_reason = "tool_use";
  });
}

abbrev decoders : Decoders
decoders = record {
  entry = λ raw. some said;
  block = λ raw. some (block_of raw);
  issue = λ raw. readable (record {
    category = "tool_error";
    severity = "warn";
    description = "no such tool";
    offending_tool = "graph";
    resource_id = "";
  });
  queue_content_text = λ raw. raw;
  parse_time = λ s. none;
  scrub = λ s. s;
}

abbrev wired : Wiring
wired = record {
  counter = true;
  internal_issue_counter = true;
  tool_calls_counter = true;
  queue_ops_counter = true;
  on_activity = true;
}

abbrev lines : List Line
lines =
    record { raw = 123 ∷ 10 ∷ []; turn_id = "t1"; now = 5 }
    ∷ record { raw = 123 ∷ 125 ∷ 10 ∷ []; turn_id = "t1"; now = 6 }
    ∷ []

abbrev fresh : Tailer
fresh = new_tailer wired none

tracked_example : IsTracked (process_lines decoders lines fresh)
tracked_example = tracked wired none decoders lines

labelled_example : AreKnown (process_lines decoders lines fresh)
labelled_example = labelled wired none decoders lines

drain-process_lines_example :
    (drain_internal_issues "t1" (process_lines decoders lines fresh)).1
    ≡ (drain_internal_issues "t1" fresh).1 ++ reported decoders lines
drain-process_lines_example = drain-process_lines decoders "t1" lines fresh refl (refl, (refl, tt))
