-- ===== src/Session/Examples/Calls.antt =====
-- internal/session: the theorems on single calls, made to a session that is up or that has a turn.
use tatara_claude_code_wrapp.Common.{
  ◌*◌, ◌≡◌, ◌≤◌, ◌⊎◌, refl, true, false, List, [], ◌∷◌, none, some, inl,
}
use tatara_claude_code_wrapp.Session.State.{write_paste, new, second}
use tatara_claude_code_wrapp.Session.Submit.{SubmitInput, submit, admit, refuse}
use tatara_claude_code_wrapp.Session.Recover.{start, boot_settled}
use tatara_claude_code_wrapp.Session.Activity.{start_tailer}
use tatara_claude_code_wrapp.Session.Step.{Section, perform}
use tatara_claude_code_wrapp.Session.Examples.{up, one}
use tatara_claude_code_wrapp.Session.Admission.{one_handoff_past_deadline, late_count}
use tatara_claude_code_wrapp.Session.Turns.{submit-Accepted, Accepted}
use tatara_claude_code_wrapp.Session.Turns.Failure.{submit-WriteFailed, WriteFailed}

abbrev input : SubmitInput
input = record {
  admit_now = 2000;
  id = "t1";
  now = 2000;
  paste_error = none;
  submit_error = none;
  timer_now = 2500;
}

abbrev failing : SubmitInput
failing = record input { paste_error = some "EIO" }

abbrev calls : List Section
calls =
    Section.admits true (11 * second)
    ∷ Section.admits false (12 * second)
    ∷ Section.admits true (13 * second)
    ∷ []

one_handoff_past_deadline_example :
    (late_count calls one ≤ 1) × ((one.handoff_admitted ≡ false) ⊎ (late_count calls one ≡ 0))
one_handoff_past_deadline_example = one_handoff_past_deadline calls one

submit-Accepted_example : Accepted "hi" "" input 1 up (submit "hi" "" false input up)
unfolding perform start boot_settled new start_tailer admit refuse
submit-Accepted_example = submit-Accepted "hi" "" false input 1 up refl refl refl refl refl

submit-WriteFailed_example : WriteFailed "t1" (write_paste "EIO") (submit "hi" "" false failing up)
unfolding perform start boot_settled new start_tailer admit refuse
submit-WriteFailed_example =
    submit-WriteFailed "hi" "" false failing 1 "EIO" up refl refl refl (inl refl)
