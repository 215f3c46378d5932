-- ===== src/Session/State.antt =====
-- internal/session/session.go: the configuration, the metrics and the state of the `Manager`.
use tatara_claude_code_wrapp.Common.{
  ℕ, zero, suc, ◌*◌, Bool, true, false, List, [], Option, none, String, Time, zero_time,
  if◌then◌else◌,
}
use tatara_claude_code_wrapp.Common.Int.{ℤ, pos, negsuc}
use tatara_claude_code_wrapp.Transcript.Probe.{ProbeTracker, new_probe_tracker}
use tatara_claude_code_wrapp.Transcript.Tokens.{TurnTokens}
use tatara_claude_code_wrapp.Turn.Records.{Record}
use tatara_claude_code_wrapp.Turn.Store.{Store}

pub record SubmitSequence : Type 0 where
  pub paste_start : String
  pub paste_end : String
  pub submit : String

-- The fields that the modelled code reads. A `time.Duration` is in nanoseconds; that of an
-- inactivity timer is taken to be at least 0.
pub record Config : Type 0 where
  pub workspace : String
  pub home_dir : String
  pub model : String
  pub repo : String
  pub turn_timeout : ℕ
  pub pod_ttl : ℤ
  pub boot_timeout : ℤ
  pub submit_delay : ℤ
  pub submit_seq : SubmitSequence
  pub max_restarts : ℤ

pub record HookResult : Type 0 where
  pub session_id : String
  pub final_text : String
  pub result_json : String
  pub usage : String
  pub stop_reason : String
  pub transcript_path : String
  pub turn_tokens : List TurnTokens

pub data State : Type 0 where
  booting ready busy dead : State

-- What the methods return as an error; `nil_writer` is a panic, a write through a nil interface.
pub data Error : Type 0 where
  pod_ttl_expired session_dead session_not_ready session_busy : Error
  write_paste write_submit write_interrupt : String → Error
  probe_unavailable interrupt_unavailable : State → Error
  no_turn : Error
  hook_during_recovery : State → Error
  hook_mismatch : Error
  store_complete : String → Error
  nil_writer : Error

pub data ResumeMode : Type 0 where
  nudge resubmit complete_from_transcript : ResumeMode

-- The counters that these methods and the hook's handler increment, and the gauge `turn_in_flight`.
-- Of the histogram of durations only the number of observations is kept; `metered` lists the calls
-- of `meterTokens`, `resumes` the increments of `TurnResumes`, with true for `ok` and false for
-- `write_fail`.
pub record Metrics : Type 0 where
  pub hook_received : ℕ
  pub hook_no_turn : ℕ
  pub hook_rejected : ℕ
  pub hook_store_error : ℕ
  pub hook_ok : ℕ
  pub hook_bad_payload : ℕ
  pub turns_complete : ℕ
  pub turns_failed : ℕ
  pub turns_interrupted : ℕ
  pub turn_durations : ℕ
  pub turn_in_flight : ℕ
  pub turn_refusals : ℕ
  pub turn_stall_suspected : ℕ
  pub claude_restarts : ℕ
  pub probes_ok : ℕ
  pub probes_unavailable : ℕ
  pub probes_write_fail : ℕ
  pub interrupts_ok : ℕ
  pub interrupts_unavailable : ℕ
  pub interrupts_write_fail : ℕ
  pub interrupts_unconfirmed : ℕ
  pub probe_answered : ℕ
  pub probe_delivered_unanswered : ℕ
  pub probe_never_delivered : ℕ
  pub resumes : List (Bool × ResumeMode)
  pub metered : List HookResult

abbrev pub no_metrics : Metrics
no_metrics = record {
  hook_received = 0;
  hook_no_turn = 0;
  hook_rejected = 0;
  hook_store_error = 0;
  hook_ok = 0;
  hook_bad_payload = 0;
  turns_complete = 0;
  turns_failed = 0;
  turns_interrupted = 0;
  turn_durations = 0;
  turn_in_flight = 0;
  turn_refusals = 0;
  turn_stall_suspected = 0;
  claude_restarts = 0;
  probes_ok = 0;
  probes_unavailable = 0;
  probes_write_fail = 0;
  interrupts_ok = 0;
  interrupts_unavailable = 0;
  interrupts_write_fail = 0;
  interrupts_unconfirmed = 0;
  probe_answered = 0;
  probe_delivered_unanswered = 0;
  probe_never_delivered = 0;
  resumes = [];
  metered = [];
}

-- `*time.Timer` made by `AfterFunc`: its callback is `markStallSuspected(turn)`, and it fires at
-- `due` unless it was stopped.
pub record Timer : Type 0 where
  pub turn : String
  pub due : Option Time

-- The processes that were spawned are numbered: `w` and `proc` name one. `wire` is all that was
-- written to their PTYs. `done` lists the calls of `OnTurnDone`, `conversation_restarts` counts those
-- of `OnRestart`; `on_turn_done` and `on_restart` say that they are set. `following` is the
-- transcript that the tailer follows.
pub record Manager : Type 0 where
  pub cfg : Config
  pub store : Store
  pub metrics : Metrics
  pub started_at : Time
  pub handoff_admitted : Bool
  pub w : Option ℕ
  pub proc : Option ℕ
  pub wire : List (ℕ × String)
  pub stopping : Bool
  pub state : State
  pub current : String
  pub last_completed : String
  pub current_started : Time
  pub current_session_id : String
  pub stall_suspected_since : Time
  pub timer : Option Timer
  pub turns_completed : ℕ
  pub turns_succeeded : ℕ
  pub transcript_path : String
  pub restarts : ℕ
  pub tailer : Bool
  pub tailer_parent_live : Bool
  pub tailer_started : Bool
  pub following : Option String
  pub subagents_started : Bool
  pub last_subagent_activity : Time
  pub probes : ProbeTracker
  pub on_turn_done : Bool
  pub on_restart : Bool
  pub done : List Record
  pub conversation_restarts : ℕ

-- `d <= 0`.
abbrev pub is_non_positive : ℤ → Bool
is_non_positive (pos zero) = true
is_non_positive (pos (suc n)) = false
is_non_positive (negsuc n) = true

-- Second and millisecond, in nanoseconds.
abbrev pub second : ℕ
second = 1000000000

abbrev pub millisecond : ℕ
millisecond = 1000000

unfoldable pub with_defaults : Config → Config
with_defaults cfg = record cfg {
  boot_timeout = if is_non_positive cfg.boot_timeout then pos (60 * second) else cfg.boot_timeout;
  submit_delay =
      if is_non_positive cfg.submit_delay then pos (400 * millisecond) else cfg.submit_delay;
  max_restarts = if is_non_positive cfg.max_restarts then pos 3 else cfg.max_restarts;
}

unfoldable pub new : Config → Store → Time → Manager
unfolding with_defaults
new cfg store started_at = record {
  cfg = with_defaults cfg;
  store = store;
  metrics = no_metrics;
  started_at = started_at;
  handoff_admitted = false;
  w = none;
  proc = none;
  wire = [];
  stopping = false;
  state = booting;
  current = "";
  last_completed = "";
  current_started = zero_time;
  current_session_id = "";
  stall_suspected_since = zero_time;
  timer = none;
  turns_completed = 0;
  turns_succeeded = 0;
  transcript_path = "";
  restarts = 0;
  tailer = false;
  tailer_parent_live = false;
  tailer_started = false;
  following = none;
  subagents_started = false;
  last_subagent_activity = zero_time;
  probes = new_probe_tracker;
  on_turn_done = false;
  on_restart = false;
  done = [];
  conversation_restarts = 0;
}
