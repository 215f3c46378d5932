-- ===== src/Session/Examples.antt =====
-- internal/session: the theorems on a session of two turns, with a pod of ten seconds.
mod Calls
use tatara_claude_code_wrapp.Common.{
  ℕ, ◌+◌, ◌≡◌, ◌≢◌, ◌↔◌, ◌*◌, ◌⊎◌, ◌++◌, refl, Bool, true, false, List, [], ◌∷◌, Option, none, some,
  String, arith, inl, inr, length, lookup, insert,
}
use tatara_claude_code_wrapp.Common.Int.{pos}
use tatara_claude_code_wrapp.Session.State.{Config, HookResult, Manager, new, with_defaults, second}
use tatara_claude_code_wrapp.Session.Submit.{SubmitInput, refuse, reserve, admit, pod_deadline}
use tatara_claude_code_wrapp.Session.Slot.{clear_current_locked, fail_turn, fire_done}
use tatara_claude_code_wrapp.Session.Recover.{start, boot_settled}
use tatara_claude_code_wrapp.Session.Step.{Section, perform, take_slot, Reach, here, next}
use tatara_claude_code_wrapp.Session.Ledger.{start_of, in_slot}
use tatara_claude_code_wrapp.Session.Accounting.{
  every_turn_counted, runs_iff_in_slot, ended_turn_is_final,
}
use tatara_claude_code_wrapp.Session.Activity.{snapshot, start_tailer}
use tatara_claude_code_wrapp.Session.State.{booting, ready, busy, dead}
use tatara_claude_code_wrapp.Session.Upkeep.{busy_session_runs, has_writer}
use tatara_claude_code_wrapp.Session.Move.{Move}
use tatara_claude_code_wrapp.Session.Move.Sections.{perform-Move}
use tatara_claude_code_wrapp.Turn.Records.{Record, running}
use tatara_claude_code_wrapp.Turn.Store
use tatara_claude_code_wrapp.Turn.Store.{new_store, fresh, errored}
use tatara_claude_code_wrapp.Turn.Laws.{status}

abbrev pub cfg : Config
cfg = record {
  workspace = "/work";
  home_dir = "/home/node";
  model = "opus";
  repo = "org/repo";
  turn_timeout = 2 * second;
  pod_ttl = pos (10 * second);
  boot_timeout = pos 0;
  submit_delay = pos 0;
  submit_seq = record { paste_start = "["; paste_end = "]"; submit = "!" };
  max_restarts = pos 0;
}

-- The session is up, as process 1.
abbrev pub up : Manager
up = perform (Section.settles 1) (
    perform (Section.starts 1) (
      perform (Section.starts_tailer true)
        (perform (Section.sets_callbacks true true) (start_of cfg 1000))))

abbrev pub one : Manager
one = perform (Section.takes_slot "t1" "hello" "http://cb" 2000) up

-- The first turn has failed.
abbrev ended : Manager
ended = perform (Section.fails "t1" "claude exited" 3000) one

-- claude is up again, and has a second turn.
abbrev two : Manager
two =
    perform (Section.takes_slot "t2" "again" "" 4000)
      (perform (Section.settles 2) (perform (Section.starts 2) ended))

abbrev first : Record
first = errored "claude exited" 3000 (fresh "t1" "hello" "http://cb" 2000)

pub Reach-up : Reach (start_of cfg 1000) up
unfolding perform
Reach-up =
    next
      (next (next (next here (Section.sets_callbacks true true) tt) (Section.starts_tailer true) tt)
        (Section.starts 1) tt)
      (Section.settles 1) tt

Reach-one : Reach (start_of cfg 1000) one
unfolding perform start_tailer start boot_settled new lookup
Reach-one = next Reach-up (Section.takes_slot "t1" "hello" "http://cb" 2000) (λ e. cc, refl)

Reach-ended : Reach (start_of cfg 1000) ended
Reach-ended = next Reach-one (Section.fails "t1" "claude exited" 3000) tt

Reach-two : Reach ended two
unfolding perform start boot_settled take_slot fail_turn new lookup start_tailer Store.fail
    Store.create insert
Reach-two =
    next (next (next here (Section.starts 2) tt) (Section.settles 2) tt)
      (Section.takes_slot "t2" "again" "" 4000) (λ e. cc, refl)

ended_turn_is_final_example : Store.get "t1" two.store ≡ some first
unfolding perform start boot_settled take_slot fail_turn new lookup start_tailer Store.get
    Store.fail Store.create insert
ended_turn_is_final_example =
    ended_turn_is_final cfg 1000 ended two "t1" first Reach-ended Reach-two refl (λ e. cc)

every_turn_counted_example :
    length ended.store.order
    ≡ ended.metrics.turns_complete
      + ended.metrics.turns_failed
      + ended.metrics.turns_interrupted
      + in_slot ended
every_turn_counted_example = every_turn_counted cfg 1000 ended Reach-ended

runs_iff_in_slot_example :
    (status "t1" ended.store ≡ some running) ↔ (("t1" ≡ ended.current) × (ended.current ≢ ""))
runs_iff_in_slot_example = runs_iff_in_slot cfg 1000 ended "t1" Reach-ended

busy_session_runs_example :
    ((one.state ≡ busy)
      × (one.current ≢ "")
      × (status one.current one.store ≡ some running)
      × (has_writer one.w ≡ true))
    ⊎ ((one.state ≡ ready) × (has_writer one.w ≡ true))
    ⊎ (one.state ≡ booting)
    ⊎ (one.state ≡ dead)
busy_session_runs_example = busy_session_runs cfg 1000 one Reach-one

perform-Move_example : Move one (perform (Section.fails "t1" "claude exited" 3000) one)
perform-Move_example = perform-Move (Section.fails "t1" "claude exited" 3000) one tt
