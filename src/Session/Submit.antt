-- ===== src/Session/Submit.antt =====
-- internal/session/session.go: admission and submission of a turn.
use tatara_claude_code_wrapp.Common.{
  ℕ, ◌+◌, ◌*◌, ◌&&◌, ◌||◌, not, Bool, true, Option, none, some, String, Time, zero_time, before,
  is_empty, is_zero, if◌then◌else◌, str_eq, ◌+++◌,
}
use tatara_claude_code_wrapp.Common.Int.{ℤ, pos, negsuc}
use tatara_claude_code_wrapp.Session.State.{
  booting, ready, busy, dead, Error, pod_ttl_expired, session_dead, session_not_ready, session_busy,
  write_paste, write_submit, nil_writer, Manager, is_non_positive, second,
}
use tatara_claude_code_wrapp.Session.Slot.{write, fail_submit_write}
use tatara_claude_code_wrapp.Turn.Store

abbrev pub add_duration : Time → ℤ → Time
add_duration t (pos n) = t + n
add_duration t (negsuc n) = t

unfoldable pub pod_deadline : Manager → Time
pod_deadline m =
    if is_non_positive m.cfg.pod_ttl then zero_time else add_duration m.started_at m.cfg.pod_ttl

abbrev pub hard_cap : Manager → Time
hard_cap m = pod_deadline m + (2 * m.cfg.turn_timeout + 60 * second)

-- `handoffAdmitted.CompareAndSwap(false, true)` succeeds if the flag is not set.
unfoldable pub admit : Bool → Time → Manager → Manager × Option Error
unfolding pod_deadline
admit handoff now m =
    if is_zero (pod_deadline m)
    then (m, none)
    else if before now (pod_deadline m)
    then (m, none)
    else if handoff && before now (hard_cap m) && not m.handoff_admitted
    then (record m { handoff_admitted = true }, none)
    else (m, some pod_ttl_expired)

-- The first section of `Submit`: the refusals, and the reservation of the slot.
unfoldable pub refuse : Manager → Option Error
refuse m = elim m.state [
  | dead ↦ some session_dead
  | booting ↦ some session_not_ready
  | ready ↦ if is_empty m.current then none else some session_busy
  | busy ↦ if is_empty m.current then none else some session_busy
]

unfoldable pub reserve : String → String → String → Time → Manager → Manager
reserve id text callback_url now m = record m {
  store = Store.create id text callback_url now m.store;
  current = id;
  current_started = now;
  state = busy;
  metrics = record (m.metrics) { turn_in_flight = 1 };
}

-- The last section: the inactivity timer, which `AfterFunc` starts at `now`.
unfoldable pub install_timer : String → Time → Manager → Manager
install_timer id now m = record m {
  timer = some (record { turn = id; due = some (now + m.cfg.turn_timeout) });
  stall_suspected_since = zero_time;
}

-- The two watchers are started once; what the goroutine of the first one does when it has found the
-- transcript is `discovered`.
unfoldable pub ensure_tailer_following : Manager → Manager
ensure_tailer_following m =
    if not m.tailer || m.tailer_started || is_empty m.cfg.home_dir || is_empty m.cfg.workspace
    then m
    else record m { tailer_started = true; subagents_started = true }

unfoldable pub discovered : String → Manager → Manager
discovered path m =
    if not (is_empty m.transcript_path) && not (str_eq m.transcript_path path)
    then m
    else record m { transcript_path = path; following = some path }

-- What a call of `Submit` meets: the readings of the clock, the new id, and the outcome of the
-- two writes.
pub record SubmitInput : Type 0 where
  pub admit_now : Time
  pub id : String
  pub now : Time
  pub paste_error : Option String
  pub submit_error : Option String
  pub timer_now : Time

-- The part of `Submit` that runs outside `mgr.mu`, with the writer `p` read under it.
unfoldable pub submit_writes : ℕ → String → SubmitInput → Manager → Manager × Option Error
unfolding fail_submit_write install_timer ensure_tailer_following
submit_writes p text x m =
    let seq = m.cfg.submit_seq in
    let m1 = write p (seq.paste_start +++ text +++ seq.paste_end) x.paste_error m in
    elim x.paste_error [
      | some e ↦ (fail_submit_write x.id "write pty paste" e x.now m1, some (write_paste e))
      | none ↦
          let m2 = write p seq.submit x.submit_error m1 in
          elim x.submit_error [
            | some e ↦ (fail_submit_write x.id "write pty submit" e x.now m2, some (write_submit e))
            | none ↦ (ensure_tailer_following (install_timer x.id x.timer_now m2), none)
          ]
    ]

unfoldable pub submit_slot : String → String → SubmitInput → Manager → Manager × Option Error
unfolding refuse reserve submit_writes
submit_slot text callback_url x m = elim (refuse m) [
  | some e ↦ (m, some e)
  | none ↦
      let m1 = reserve x.id text callback_url x.now m in
      elim m.w [ none ↦ (m1, some nil_writer) | some p ↦ submit_writes p text x m1 ]
]

abbrev pub refusal : Manager → Manager
refusal m = record m {
  metrics = record (m.metrics) { turn_refusals = m.metrics.turn_refusals + 1 };
}

-- `Submit` behind the call of `admit`.
unfoldable pub after_admit :
    String → String → SubmitInput → Manager × Option Error → Manager × Option Error
unfolding submit_slot
after_admit text callback_url x (m, some e) = (refusal m, some e)
after_admit text callback_url x (m, none) = submit_slot text callback_url x m

-- `Submit` with nothing between its sections; the id of the turn is `x.id`.
unfoldable pub submit : String → String → Bool → SubmitInput → Manager → Manager × Option Error
unfolding admit after_admit
submit text callback_url handoff x m = after_admit text callback_url x (admit handoff x.admit_now m)
