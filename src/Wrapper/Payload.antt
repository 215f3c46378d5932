-- ===== src/Wrapper/Payload.antt =====
-- cmd/wrapper/callback_payload.go: the body of the turn-complete callback. A percentage is any type
-- `P`; the duration, a number of seconds there, is one of nanoseconds.
use tatara_claude_code_wrapp.Common.{List, Option, none, some, String, Time}
use tatara_claude_code_wrapp.Common.Int.{ℤ, pos, sub_ℕ}
use tatara_claude_code_wrapp.Turn.Records.{State, Record, InternalIssueReport}

pub record AccountUsagePayload (P : Type 0) : Type 0 where
  pub observed_at : Time
  pub five_hour_percent : P
  pub five_hour_reset_unix : ℤ
  pub weekly_percent : P
  pub weekly_reset_unix : ℤ

pub record CallbackPayload (P : Type 0) : Type 0 where
  pub turn_id : String
  pub task_name : String
  pub state : State
  pub final_text : String
  pub stop_reason : String
  pub error : String
  pub duration : ℤ
  pub usage : String
  pub pushed_repos : List String
  pub failed_repos : List String
  pub internal_issues : List InternalIssueReport
  pub account_usage : Option (AccountUsagePayload P)

abbrev pub duration_until : Time → Option Time → ℤ
duration_until started none = pos 0
duration_until started (some completed) = sub_ℕ completed started

abbrev pub new_callback_payload :
    {P : Type 0} → Record → String → Option (AccountUsagePayload P) → CallbackPayload P
new_callback_payload rec task_name usage = record {
  turn_id = rec.id;
  task_name = task_name;
  state = rec.state;
  final_text = rec.final_text;
  stop_reason = rec.stop_reason;
  error = rec.error;
  duration = duration_until rec.started_at rec.completed_at;
  usage = rec.usage;
  pushed_repos = rec.pushed_repos;
  failed_repos = rec.failed_repos;
  internal_issues = rec.internal_issues;
  account_usage = usage;
}
