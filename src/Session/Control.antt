-- ===== src/Session/Control.antt =====
-- internal/session/session.go and interrupt.go: probes, interrupts and the shutdown.
use tatara_claude_code_wrapp.Common.{
  ℕ, ◌+◌, ◌&&◌, ◌||◌, not, Bool, true, List, [], Option, none, some, String, Time, is_empty,
  if◌then◌else◌, str_eq, ◌+++◌, trim_space,
}
use tatara_claude_code_wrapp.Session.State.{
  booting, ready, busy, dead, Error, write_paste, write_submit, write_interrupt, probe_unavailable,
  interrupt_unavailable, HookResult, Metrics, Manager,
}
use tatara_claude_code_wrapp.Session.Slot.{
  stopped, write, clear_current_locked, fire_done, meter_tokens,
}
use tatara_claude_code_wrapp.Transcript.Probe
use tatara_claude_code_wrapp.Transcript.Probe.{
  ProbeOutcome, answered, delivered_unanswered, never_delivered, ProbeTracker, Emission,
}
use tatara_claude_code_wrapp.Transcript.Tokens.{TurnTokens}
use tatara_claude_code_wrapp.Turn.Store

-- `DefaultProbeText`.
abbrev pub default_probe_text : String
default_probe_text =
    "Do not stop what you are doing. Reply with exactly TATARA-ALIVE <one sentence about what you are doing right now>."

-- `recordProbeOutcome`.
abbrev count_outcome : ProbeOutcome → Metrics → Metrics
count_outcome answered x = record x { probe_answered = x.probe_answered + 1 }
count_outcome delivered_unanswered x = record x {
  probe_delivered_unanswered = x.probe_delivered_unanswered + 1;
}
count_outcome never_delivered x = record x { probe_never_delivered = x.probe_never_delivered + 1 }

unfoldable pub record_probe_outcome : Emission → Manager → Manager
record_probe_outcome none m = m
record_probe_outcome (some (o, latency)) m = record m { metrics = count_outcome o m.metrics }

-- The process to write to; there is none if the session is not up.
unfoldable pub live_writer : Manager → Option ℕ
live_writer m = elim m.w [
  | none ↦ none
  | some p ↦
      if m.stopping
      then none
      else elim m.state [ dead ↦ none | booting ↦ none | ready ↦ some p | busy ↦ some p ]
]

-- What a call of `Probe` meets.
pub record ProbeInput : Type 0 where
  pub id : String
  pub now : Time
  pub paste_error : Option String
  pub submit_error : Option String

abbrev pub probe_text : String → String
probe_text text = if is_empty (trim_space text) then default_probe_text else text

unfoldable pub register_probe : String → String → Time → Manager → Manager
unfolding record_probe_outcome
register_probe id text now m =
    let (probes', e) = Probe.register id text now m.probes in
    record_probe_outcome e (record m { probes = probes' })

unfoldable pub discard_probe : String → Manager → Manager
discard_probe id m = record m {
  probes = Probe.discard id m.probes;
  metrics = record (m.metrics) { probes_write_fail = m.metrics.probes_write_fail + 1 };
}

unfoldable pub probe_writes : ℕ → String → ProbeInput → Manager → Manager × Option Error
unfolding discard_probe
probe_writes p text x m =
    let seq = m.cfg.submit_seq in
    let m1 = write p (seq.paste_start +++ text +++ seq.paste_end) x.paste_error m in
    elim x.paste_error [
      | some e ↦ (discard_probe x.id m1, some (write_paste e))
      | none ↦
          let m2 = write p seq.submit x.submit_error m1 in
          elim x.submit_error [
            | some e ↦ (discard_probe x.id m2, some (write_submit e))
            | none ↦ (
              record m2 { metrics = record (m2.metrics) { probes_ok = m2.metrics.probes_ok + 1 } },
              none,
            )
          ]
    ]

unfoldable pub probe : String → ProbeInput → Manager → Manager × Option Error
unfolding live_writer register_probe probe_writes
probe text x m = elim (live_writer m) [
  | none ↦ (
    record m {
      metrics = record (m.metrics) { probes_unavailable = m.metrics.probes_unavailable + 1 };
    },
    some (probe_unavailable m.state),
  )
  | some p ↦ probe_writes p (probe_text text) x (register_probe x.id (probe_text text) x.now m)
]

-- `InterruptSeq`, an ESC.
abbrev pub interrupt_seq : String
interrupt_seq = "\u{1b}"

-- The turn that was in flight is the one to await, if there is one.
unfoldable pub interrupt : Option String → Manager → Manager × Option Error
unfolding live_writer
interrupt write_error m = elim (live_writer m) [
  | none ↦ (
    record m {
      metrics = record (m.metrics) {
        interrupts_unavailable = m.metrics.interrupts_unavailable + 1;
      };
    },
    some (interrupt_unavailable m.state),
  )
  | some p ↦
      let m1 = write p interrupt_seq write_error m in
      elim write_error [
        | some e ↦ (
          record m1 {
            metrics = record (m1.metrics) {
              interrupts_write_fail = m1.metrics.interrupts_write_fail + 1;
            };
          },
          some (write_interrupt e),
        )
        | none ↦ (
          record m1 {
            metrics = record (m1.metrics) { interrupts_ok = m1.metrics.interrupts_ok + 1 };
          },
          none,
        )
      ]
]

-- What can be read of a transcript; `none` for an error.
pub record Reads : Type 0 where
  pub last_message : String → Option (String × String)
  pub last_assistant : String → Option (String × String × String)
  pub sum_turn_tokens : String → Option (List TurnTokens)
  pub was_interrupted : String → Bool

abbrev pub read_or {ℓ} : {A : Type ℓ} → A → Option A → A
read_or d none = d
read_or d (some a) = a

abbrev pub report : String → List TurnTokens → HookResult
report usage tokens = record {
  session_id = "";
  final_text = "";
  result_json = "";
  usage = usage;
  stop_reason = "";
  transcript_path = "";
  turn_tokens = tokens;
}

unfoldable pub complete_after_interrupt : Reads → String → String → Time → Manager → Manager
unfolding clear_current_locked meter_tokens fire_done
complete_after_interrupt reads id path now m =
    let (text, usage, stop) = read_or ("", "", "") (reads.last_assistant path) in
    let tokens = read_or [] (reads.sum_turn_tokens path) in
    if not (str_eq m.current id)
    then m
    else let m1 = record m { timer = stopped m.timer } in
      let (store', err) = Store.interrupt id text usage now m1.store in
      elim err [
        | some e ↦ m1
        | none ↦
            let m2 = clear_current_locked ready (record m1 { store = store' }) in
            let m3 = record m2 {
              current_session_id = "";
              metrics = record (m2.metrics) {
                turns_interrupted = m2.metrics.turns_interrupted + 1;
                turn_durations = m2.metrics.turn_durations + 1;
              };
            } in
            fire_done (Store.get id store') (meter_tokens (report usage tokens) m3)
      ]

pub data Poll : Type 0 where
  again given_up finished : Poll

-- One round of `awaitInterruptedTurn`, with the test of its deadline.
unfoldable pub await_round : Reads → String → Bool → Time → Manager → Manager × Poll
unfolding complete_after_interrupt
await_round reads id expired now m =
    if m.stopping || not (str_eq m.current id)
    then (m, finished)
    else if not (is_empty m.transcript_path) && reads.was_interrupted m.transcript_path
    then (complete_after_interrupt reads id m.transcript_path now m, finished)
    else if expired
    then (
      record m {
        metrics = record (m.metrics) {
          interrupts_unconfirmed = m.metrics.interrupts_unconfirmed + 1;
        };
      },
      given_up,
    )
    else (m, again)

-- `Shutdown` up to its wait for the goroutines.
unfoldable pub shutdown : Option String → Manager → Manager
unfolding record_probe_outcome
shutdown write_error m =
    let m1 = record m { stopping = true; state = dead; following = none } in
    let (probes', e) = Probe.finalize m1.probes in
    let m2 = record_probe_outcome e (record m1 { probes = probes' }) in
    elim m2.w [ none ↦ m2 | some p ↦ write p "\u{3}" write_error m2 ]
