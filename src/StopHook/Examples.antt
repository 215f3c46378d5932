-- ===== src/StopHook/Examples.antt =====
-- cmd/cc-stop-hook: a report on the turn of a session, which the operator follows with another turn.
use tatara_claude_code_wrapp.Common.{ℕ, zero, suc, ◌≡◌, refl, [], none, some, Time, lookup, insert}
use tatara_claude_code_wrapp.Session.State.{HookResult, Manager, new}
use tatara_claude_code_wrapp.Session.Slot.{clear_current_locked, fire_done, meter_tokens}
use tatara_claude_code_wrapp.Session.Hook.{
  complete, reject, take_report, adopt_transcript, finish, count_complete,
}
use tatara_claude_code_wrapp.Session.Recover.{start, boot_settled}
use tatara_claude_code_wrapp.Session.Step.{Section, perform, take_slot}
use tatara_claude_code_wrapp.Session.Activity.{start_tailer}
use tatara_claude_code_wrapp.Session.Examples.{one}
use tatara_claude_code_wrapp.Turn.Store
use tatara_claude_code_wrapp.Turn.Store.{fresh}
use tatara_claude_code_wrapp.Api.{turn_complete}
use tatara_claude_code_wrapp.StopHook.{
  Delivery, answer_lost, unreached, answered, post_with_retry, to_session,
}
use tatara_claude_code_wrapp.StopHook.Laws.{Posted, undisturbed, post_with_retry-Posted}
use tatara_claude_code_wrapp.StopHook.Late.{
  IsFresh, first_lost, completed_by, late_retry_ends_next_turn,
}

abbrev report : HookResult
report = record {
  session_id = "s1";
  final_text = "done with t1";
  result_json = "";
  usage = "";
  stop_reason = "end_turn";
  transcript_path = "";
  turn_tokens = [];
}

abbrev clock : ℕ → Time
clock zero = 5000
clock (suc n) = 7000

-- The third attempt is the first that is answered.
abbrev flaky : ℕ → Delivery
flaky zero = unreached
flaky (suc zero) = answer_lost
flaky (suc (suc n)) = answered

post_with_retry-Posted_example :
    Posted one (post_with_retry (undisturbed flaky (some report) clock one) one)
post_with_retry-Posted_example = post_with_retry-Posted flaky (some report) clock one

-- Another turn is submitted ahead of the second attempt.
abbrev next_turn : ℕ → Manager → Manager
next_turn zero m = m
next_turn (suc n) m = perform (Section.takes_slot "t2" "again" "" 6000) m

next_turn-IsFresh :
    IsFresh (fresh "t2" "again" "" 6000) (next_turn 1 (turn_complete (some report) (clock 0) one).0)
unfolding perform start boot_settled take_slot new start_tailer Store.create insert turn_complete
    complete reject take_report adopt_transcript finish count_complete clear_current_locked
    fire_done meter_tokens Store.complete Store.get lookup
next_turn-IsFresh = record { runs = refl; in_flight = refl; no_session = refl; stored = refl }

late_retry_ends_next_turn_example :
    ((post_with_retry (to_session first_lost (some report) clock next_turn) one).1 ≡ none)
    × (Store.get
          (next_turn 1 (turn_complete (some report) (clock 0) one).0).current
          (post_with_retry (to_session first_lost (some report) clock next_turn) one).0.store
        ≡ some (completed_by report (clock 1) (fresh "t2" "again" "" 6000)))
late_retry_ends_next_turn_example =
    late_retry_ends_next_turn report clock next_turn (fresh "t2" "again" "" 6000) one
      next_turn-IsFresh
