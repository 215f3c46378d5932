-- ===== src/Session/Slot.antt =====
-- internal/session/session.go: how the turn slot is freed, and the turns that fail. Each function
-- is one section that holds `mgr.mu`, with the metrics and the callback that follow it.
use tatara_claude_code_wrapp.Common.{
  ℕ, ◌+◌, ◌++◌, not, Bool, true, false, List, [], ◌∷◌, Option, none, some, String, Time, zero_time,
  if◌then◌else◌, str_eq, ◌+++◌,
}
use tatara_claude_code_wrapp.Session.State.{State, ready, dead, HookResult, Manager, Timer}
use tatara_claude_code_wrapp.Turn.Records.{Record}
use tatara_claude_code_wrapp.Turn.Store
use tatara_claude_code_wrapp.Turn.Store.{Store}

-- `timer.Stop()`, if there is a timer.
abbrev pub stopped : Option Timer → Option Timer
stopped none = none
stopped (some t) = some (record t { due = none })

-- A write to the PTY of process `p`, which succeeded if `error` is nil.
abbrev pub write : ℕ → String → Option String → Manager → Manager
write p text none m = record m { wire = m.wire ++ (p, text) ∷ [] }
write p text (some error) m = m

unfoldable pub clear_current_locked : State → Manager → Manager
clear_current_locked next m = record m {
  last_completed = m.current;
  current = "";
  turns_completed = m.turns_completed + 1;
  state = next;
  stall_suspected_since = zero_time;
  metrics = record (m.metrics) { turn_in_flight = 0 };
}

abbrev done_with : Bool → Option Record → List Record → List Record
done_with true (some r) done = done ++ r ∷ []
done_with true none done = done
done_with false rec done = done

unfoldable pub fire_done : Option Record → Manager → Manager
fire_done rec m = record m { done = done_with m.on_turn_done rec m.done }

unfoldable pub meter_tokens : HookResult → Manager → Manager
meter_tokens r m = record m {
  metrics = record (m.metrics) { metered = m.metrics.metered ++ r ∷ [] };
}

abbrev pub count_failed : Manager → Manager
count_failed m = record m {
  metrics = record (m.metrics) {
    turns_failed = m.metrics.turns_failed + 1;
    turn_durations = m.metrics.turn_durations + 1;
  };
}

unfoldable pub fail_turn : String → String → Time → Manager → Manager
unfolding clear_current_locked fire_done
fail_turn id reason now m =
    if not (str_eq m.current id)
    then m
    else let m1 = record m { timer = stopped m.timer } in
      let (store', err) = Store.fail id reason now m1.store in
      elim err [
        | some e ↦ m1
        | none ↦
            let m2 = clear_current_locked dead (record m1 { store = store' }) in
            let m3 = count_failed (record m2 { current_session_id = "" }) in
            fire_done (Store.get id store') m3
      ]

unfoldable pub fail_submit_write : String → String → String → Time → Manager → Manager
unfolding clear_current_locked
fail_submit_write id stage werr now m =
    if not (str_eq m.current id)
    then m
    else let (store', err) = Store.fail id (stage +++ ": " +++ werr) now m.store in
      elim err [
        | some e ↦ m
        | none ↦ count_failed (clear_current_locked ready (record m { store = store' }))
      ]
