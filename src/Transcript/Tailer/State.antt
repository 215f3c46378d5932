-- ===== src/Transcript/Tailer/State.antt =====
-- internal/transcript/tailer.go: the entries of a transcript and the state of the tailer. The JSON
-- decoders, the parser of a time and the redactor are parameters; the logs are left out.
use tatara_claude_code_wrapp.Common.{
  ℕ, ◌++◌, Bool, List, [], ◌∷◌, Option, String, Time, if◌then◌else◌,
}
use tatara_claude_code_wrapp.Common.Int.{ℤ}
use tatara_claude_code_wrapp.Transcript.Lines.{Bytes}
use tatara_claude_code_wrapp.Transcript.Probe.{ProbeTracker, ProbeOutcome}
use tatara_claude_code_wrapp.Transcript.Queue.{QueueTracker, empty_queue}
use tatara_claude_code_wrapp.Turn.Records.{InternalIssueReport}

-- `content` holds the raw blocks.
pub record TranscriptMsg : Type 0 where
  pub role : String
  pub content : List String
  pub stop_reason : String

-- `content` is raw, "" if there is none.
pub record TranscriptEntry : Type 0 where
  pub type : String
  pub timestamp : String
  pub operation : String
  pub content : String
  pub message : Option TranscriptMsg

pub record ContentBlock : Type 0 where
  pub type : String
  pub text : String
  pub thinking : String
  pub id : String
  pub name : String
  pub input : String
  pub tool_use_id : String
  pub is_error : Bool

pub record InternalIssueInput : Type 0 where
  pub category : String
  pub severity : String
  pub description : String
  pub offending_tool : String
  pub resource_id : String

-- An input, or the decoder's error.
pub data IssueInput : Type 0 where
  unreadable : String → IssueInput
  readable : InternalIssueInput → IssueInput

pub record Decoders : Type 0 where
  pub entry : Bytes → Option TranscriptEntry
  pub block : String → Option ContentBlock
  pub issue : String → IssueInput
  pub queue_content_text : String → String
  pub parse_time : String → Option Time
  pub scrub : String → String

-- Which counters and hooks are attached.
pub record Wiring : Type 0 where
  pub counter : Bool
  pub internal_issue_counter : Bool
  pub tool_calls_counter : Bool
  pub queue_ops_counter : Bool
  pub on_activity : Bool

-- Each counter is the list of the labels that it was incremented under; `activity` lists the calls
-- of the hook, `observed` those of the probes' observer. `task_calls` is only lowered where an id is
-- taken out of `task_use_ids`, so it never stops at 0.
pub record Tailer : Type 0 where
  pub wiring : Wiring
  pub probes : Option ProbeTracker
  pub queue : QueueTracker
  pub task_use_ids : List String
  pub task_turn_id : String
  pub task_calls : ℕ
  pub tool_names : List (String × String)
  pub tc_turn_id : String
  pub internal_issues : List InternalIssueReport
  pub ii_turn_id : String
  pub events : List String
  pub issue_counts : List (String × String)
  pub tool_calls : List (String × String)
  pub queue_ops : List String
  pub activity : List (String × Bool)
  pub observed : List (ProbeOutcome × ℤ)

unfoldable pub new_tailer : Wiring → Option ProbeTracker → Tailer
new_tailer wiring probes = record {
  wiring = wiring;
  probes = probes;
  queue = empty_queue;
  task_use_ids = [];
  task_turn_id = "";
  task_calls = 0;
  tool_names = [];
  tc_turn_id = "";
  internal_issues = [];
  ii_turn_id = "";
  events = [];
  issue_counts = [];
  tool_calls = [];
  queue_ops = [];
  activity = [];
  observed = [];
}

abbrev pub inc_counter : String → Tailer → Tailer
inc_counter stream_type t =
    if t.wiring.counter then record t { events = t.events ++ stream_type ∷ [] } else t
