-- ===== src/Transcript/Probe.antt =====
-- internal/transcript/probe.go: the tracker of the one liveness probe in flight. The call of the
-- outcome observer that a method makes is the second part of its result.
pub mod Laws
use text.Mathlib.Text.{starts_with}
use tatara_claude_code_wrapp.Common.{
  Bool, true, false, ◌||◌, not, Option, none, some, String, Time, zero_time, is_zero, before,
  is_empty, str_eq, trim_space, if◌then◌else◌,
}
use tatara_claude_code_wrapp.Common.Int.{ℤ, pos, sub_ℕ}

-- `ProbeAnswerPrefix`.
abbrev pub probe_answer_prefix : String
probe_answer_prefix = "TATARA-ALIVE"

pub data ProbeState : Type 0 where
  pending delivered answered : ProbeState

pub data ProbeOutcome : Type 0 where
  answered delivered_unanswered never_delivered : ProbeOutcome

pub record ProbeStatus : Type 0 where
  pub id : String
  pub state : ProbeState
  pub sent_at : Time
  pub enqueued_at : Time
  pub delivered_at : Time
  pub answered_at : Time
  pub answer : String

pub record ProbeRecord : Type 0 where
  pub status : ProbeStatus
  pub text : String
  pub finished : Bool

pub record ProbeTracker : Type 0 where
  pub cur : Option ProbeRecord

-- A call of the observer: the outcome, and the latency of the answer.
abbrev pub Emission : Type 0
Emission = Option (ProbeOutcome × ℤ)

abbrev pub new_probe_tracker : ProbeTracker
new_probe_tracker = record { cur = none }

abbrev pub outcome_of : ProbeStatus → ProbeState → ProbeOutcome × ℤ
outcome_of s answered = (ProbeOutcome.answered, sub_ℕ s.answered_at s.sent_at)
outcome_of s delivered = (delivered_unanswered, pos 0)
outcome_of s pending = (never_delivered, pos 0)

finish_record : ProbeRecord → ProbeRecord × Emission
finish_record r =
    if r.finished
    then (r, none)
    else (record r { finished = true }, some (outcome_of r.status r.status.state))

unfoldable pub finish_locked : ProbeTracker → ProbeTracker × Emission
unfolding finish_record
finish_locked p = elim p.cur [
  | none ↦ (p, none)
  | some r ↦ let (r', e) = finish_record r in (record { cur = some r' }, e)
]

-- The record that `Register` allocates.
abbrev pub registered : String → String → Time → ProbeRecord
registered id text at = record {
  status = record {
    id = id;
    state = pending;
    sent_at = at;
    enqueued_at = zero_time;
    delivered_at = zero_time;
    answered_at = zero_time;
    answer = "";
  };
  text = trim_space text;
  finished = false;
}

unfoldable pub register : String → String → Time → ProbeTracker → ProbeTracker × Emission
unfolding finish_locked
register id text at p = (record { cur = some (registered id text at) }, (finish_locked p).1)

unfoldable pub discard : String → ProbeTracker → ProbeTracker
discard id p = elim p.cur [
  | none ↦ p
  | some r ↦ if str_eq r.status.id id then record { cur = none } else p
]

unfoldable pub finalize : ProbeTracker → ProbeTracker × Emission
unfolding finish_locked
finalize p = finish_locked p

unfoldable pub status : String → ProbeTracker → Option ProbeStatus
status id p = elim p.cur [
  | none ↦ none
  | some r ↦ if str_eq r.status.id id then some r.status else none
]

unfoldable pub current : ProbeTracker → Option ProbeStatus
current p = elim p.cur [ none ↦ none | some r ↦ some r.status ]

abbrev pub is_pending : ProbeState → Bool
is_pending pending = true
is_pending _ = false

abbrev pub is_delivered : ProbeState → Bool
is_delivered delivered = true
is_delivered _ = false

-- `PendingSince`, the zero time with `false`.
unfoldable pub pending_since : ProbeTracker → Time × Bool
pending_since p = elim p.cur [
  | none ↦ (zero_time, false)
  | some r ↦ if is_pending r.status.state then (r.status.sent_at, true) else (zero_time, false)
]

unfoldable pub note_enqueue : String → Time → ProbeTracker → ProbeTracker × Bool
note_enqueue content at p = elim p.cur [
  | none ↦ (p, false)
  | some r ↦
      if is_empty r.text || not (str_eq (trim_space content) r.text)
      then (p, false)
      else if is_zero r.status.enqueued_at
      then (
        record { cur = some (record r { status = record (r.status) { enqueued_at = at } }) },
        true,
      )
      else (p, true)
]

unfoldable pub note_removal : Time → ProbeTracker → ProbeTracker
note_removal at p = elim p.cur [
  | none ↦ p
  | some r ↦
      if is_pending r.status.state
      then record {
        cur =
            some (record r { status = record (r.status) { state = delivered; delivered_at = at } });
      }
      else p
]

abbrev pub answer_record : String → Time → ProbeRecord → ProbeRecord
answer_record trimmed at r = record r {
  status = record (r.status) { state = answered; answered_at = at; answer = trimmed };
}

-- `NoteAssistantText`: the tracker, the observer's call, and the latency if this call answered.
unfoldable pub note_assistant_text :
    String → Time → ProbeTracker → ProbeTracker × Emission × Option ℤ
unfolding finish_locked
note_assistant_text text at p = elim p.cur [
  | none ↦ (p, none, none)
  | some r ↦
      if not (is_delivered r.status.state)
      then (p, none, none)
      else if before at r.status.delivered_at
      then (p, none, none)
      else let trimmed = trim_space text in
        if not (starts_with trimmed probe_answer_prefix)
        then (p, none, none)
        else let (p', e) = finish_locked (record { cur = some (answer_record trimmed at r) }) in
          (p', e, some (sub_ℕ at r.status.sent_at))
]
