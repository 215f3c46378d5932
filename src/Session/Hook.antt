-- ===== src/Session/Hook.antt =====
-- internal/session/session.go: `Complete`, which a Stop hook's report invokes.
use tatara_claude_code_wrapp.Common.{
  ◌+◌, ◌&&◌, not, Bool, true, false, Option, none, some, String, Time, is_empty, if◌then◌else◌,
  str_eq,
}
use tatara_claude_code_wrapp.Session.State.{
  State, booting, ready, busy, dead, Error, no_turn, hook_during_recovery, hook_mismatch,
  store_complete, HookResult, Manager,
}
use tatara_claude_code_wrapp.Session.Slot.{stopped, clear_current_locked, fire_done, meter_tokens}
use tatara_claude_code_wrapp.Turn.Store

-- Starts the tailer on the path that the hook names, or moves it there.
unfoldable pub adopt_transcript : String → Manager → Manager
adopt_transcript path m =
    if is_empty path
    then m
    else let m1 = record m { transcript_path = path } in
      if not m.tailer
      then m1
      else if not m.tailer_started
      then record m1 { tailer_started = true; following = some path }
      else if not (str_eq path m.transcript_path) && m.tailer_parent_live
      then record m1 { following = some path }
      else m1

abbrev in_recovery : State → Bool
in_recovery dead = true
in_recovery booting = true
in_recovery ready = false
in_recovery busy = false

-- What `Complete` refuses a report for, at a turn that is in flight.
unfoldable pub reject : HookResult → Manager → Option Error
reject r m =
    if in_recovery m.state
    then some (hook_during_recovery m.state)
    else if not (is_empty r.session_id)
        && not (is_empty m.current_session_id)
        && not (str_eq r.session_id m.current_session_id)
    then some hook_mismatch
    else none

-- The state after the report of a Stop hook has been taken up, before the store is written.
unfoldable pub take_report : HookResult → Manager → Manager
unfolding adopt_transcript
take_report r m =
    let sid =
      if not (is_empty r.session_id) && is_empty m.current_session_id
      then r.session_id
      else m.current_session_id in
    adopt_transcript r.transcript_path
      (record m { current_session_id = sid; timer = stopped m.timer })

-- What `Complete` and the completion from a transcript do once the store is written.
unfoldable pub count_complete : Manager → Manager
unfolding clear_current_locked
count_complete m =
    let m1 = clear_current_locked ready m in
    record m1 {
      turns_succeeded = m1.turns_succeeded + 1;
      restarts = 0;
      current_session_id = "";
      metrics = record (m1.metrics) {
        turns_complete = m1.metrics.turns_complete + 1;
        turn_durations = m1.metrics.turn_durations + 1;
      };
    }

abbrev hook_no_turn : Manager → Manager
hook_no_turn m = record m {
  metrics = record (m.metrics) {
    hook_received = m.metrics.hook_received + 1;
    hook_no_turn = m.metrics.hook_no_turn + 1;
  };
}

abbrev hook_rejected : Manager → Manager
hook_rejected m = record m {
  metrics = record (m.metrics) {
    hook_received = m.metrics.hook_received + 1;
    hook_rejected = m.metrics.hook_rejected + 1;
  };
}

abbrev hook_store_error : Manager → Manager
hook_store_error m = record m {
  metrics = record (m.metrics) {
    hook_received = m.metrics.hook_received + 1;
    hook_store_error = m.metrics.hook_store_error + 1;
  };
}

abbrev hook_ok : Manager → Manager
hook_ok m = record m {
  metrics = record (m.metrics) {
    hook_received = m.metrics.hook_received + 1;
    hook_ok = m.metrics.hook_ok + 1;
  };
}

-- The end of `Complete`, for a report that was taken up.
unfoldable pub finish : HookResult → Time → Manager → Manager × Option Error
unfolding count_complete meter_tokens fire_done
finish r now m =
    let id = m.current in
    let (store', err) =
      Store.complete id r.final_text r.result_json r.usage r.stop_reason now m.store in
    elim err [
      | some e ↦ (hook_store_error m, some (store_complete id))
      | none ↦
          let m1 = hook_ok (count_complete (record m { store = store' })) in
          (fire_done (Store.get id store') (meter_tokens r m1), none)
    ]

unfoldable pub complete : HookResult → Time → Manager → Manager × Option Error
unfolding reject take_report finish
complete r now m =
    if is_empty m.current then (hook_no_turn m, some no_turn) else elim (reject r m) [
      | some e ↦ (hook_rejected m, some e)
      | none ↦ finish r now (take_report r m)
    ]
