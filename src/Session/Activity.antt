-- ===== src/Session/Activity.antt =====
-- internal/session/session.go: what the tailer and the clock report, and what is read out.
use tatara_claude_code_wrapp.Common.{
  ℕ, ◌+◌, ◌||◌, not, Bool, true, false, Option, none, some, String, Time, zero_time, is_empty,
  is_zero, if◌then◌else◌, str_eq,
}
use tatara_claude_code_wrapp.Session.State.{State, booting, ready, busy, dead, Manager, Timer}
use tatara_claude_code_wrapp.Transcript.Probe
use tatara_claude_code_wrapp.Turn.Records.{Record}
use tatara_claude_code_wrapp.Turn.Store

unfoldable pub current_turn_id : Manager → String
current_turn_id m = if not (is_empty m.current) then m.current else m.last_completed

-- `timer.Reset(TurnTimeout)` at `now`, which arms a stopped timer again.
abbrev pub reset : Time → Option Timer → Option Timer
reset due none = none
reset due (some t) = some (record t { due = some due })

abbrev pub has_timer : Option Timer → Bool
has_timer none = false
has_timer (some t) = true

unfoldable pub on_tailer_activity : String → Bool → Time → Manager → Manager
on_tailer_activity turn_id probe_originated now m =
    if probe_originated
    then m
    else if is_empty turn_id || not (str_eq turn_id m.current) || not (has_timer m.timer)
    then m
    else record m {
      store = (Store.touch turn_id now m.store).0;
      stall_suspected_since = zero_time;
      timer = reset (now + m.cfg.turn_timeout) m.timer;
    }

-- The callback of the timer that was made for turn `id`; the clock is read twice.
unfoldable pub mark_stall_suspected : String → Time → Time → Manager → Manager
mark_stall_suspected id stamp now m =
    if not (str_eq m.current id) || not (has_timer m.timer) then m else record m {
      stall_suspected_since =
          if is_zero m.stall_suspected_since then stamp else m.stall_suspected_since;
      timer = reset (now + m.cfg.turn_timeout) m.timer;
      metrics = record (m.metrics) { turn_stall_suspected = m.metrics.turn_stall_suspected + 1 };
    }

unfoldable pub on_subagent_activity : Bool → Time → Manager → Manager
on_subagent_activity probe_originated now m =
    if probe_originated then m else record m { last_subagent_activity = now }

-- `ContractVersion`.
abbrev pub contract_version : ℕ
contract_version = 4

pub record Snapshot : Type 0 where
  pub state : State
  pub turns_completed : ℕ
  pub turns_finished : ℕ
  pub model : String
  pub repo : String
  pub last_activity_at : Time
  pub contract_version : ℕ
  pub last_subagent_activity_at : Time
  pub outstanding_subagent_calls : ℕ
  pub probe_pending_since : Time
  pub stall_suspected_since : Time

abbrev last_activity_of : Option Record → Time
last_activity_of none = zero_time
last_activity_of (some r) = r.last_activity_at

-- `outstanding` is what the tailer counts.
unfoldable pub snapshot : ℕ → Manager → Snapshot
snapshot outstanding m = record {
  state = m.state;
  turns_completed = m.turns_succeeded;
  turns_finished = m.turns_completed;
  model = m.cfg.model;
  repo = m.cfg.repo;
  last_activity_at =
      if is_empty m.current then zero_time else last_activity_of (Store.get m.current m.store);
  contract_version = contract_version;
  last_subagent_activity_at = m.last_subagent_activity;
  outstanding_subagent_calls = if m.tailer then outstanding else 0;
  probe_pending_since = (Probe.pending_since m.probes).0;
  stall_suspected_since = m.stall_suspected_since;
}

unfoldable pub alive : Manager → Bool
alive m = elim m.state [ dead ↦ false | booting ↦ false | ready ↦ true | busy ↦ true ]

-- `StartTailer`; `enabled` is `logTranscriptEnabled()`. The context it is given is live.
unfoldable pub start_tailer : Bool → Manager → Manager
start_tailer enabled m =
    if not enabled then m else record m { tailer = true; tailer_parent_live = true }
