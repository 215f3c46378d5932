-- ===== src/Turn/Records.antt =====
-- internal/turn/turn.go: the record of a turn. `json.RawMessage` is its bytes, "" for nil.
use tatara_claude_code_wrapp.Common.{List, Option, String, Time}

pub data State : Type 0 where
  running complete failed : State

-- The text that `StopReasonInterrupted` and `ErrInterrupted` are.
abbrev pub stop_reason_interrupted : String
stop_reason_interrupted = "interrupted"

abbrev pub err_interrupted : String
err_interrupted = "turn interrupted"

pub record InternalIssueReport : Type 0 where
  pub category : String
  pub severity : String
  pub description : String
  pub offending_tool : String
  pub resource_id : String

pub record Record : Type 0 where
  pub id : String
  pub state : State
  pub text : String
  pub callback_url : String
  pub final_text : String
  pub result_json : String
  pub usage : String
  pub stop_reason : String
  pub error : String
  pub started_at : Time
  pub last_activity_at : Time
  pub completed_at : Option Time
  pub pushed_repos : List String
  pub failed_repos : List String
  pub internal_issues : List InternalIssueReport

pub record Summary : Type 0 where
  pub id : String
  pub state : State
  pub started_at : Time
  pub last_activity_at : Time
  pub completed_at : Option Time
