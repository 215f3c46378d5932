-- ===== src/Wrapper/Reprompt.antt =====
-- cmd/wrapper/app.go: how a rejected outcome is classified, and what the agent is told of it.
use tatara_claude_code_wrapp.Common.{
  ℕ, Bool, true, Option, none, some, String, if◌then◌else◌, leb, trim_space, ◌+++◌,
}
use tatara_claude_code_wrapp.Transcript.Status.{Bytes, outcome_error_status}

abbrev pub max_outcome_reprompts : ℕ
max_outcome_reprompts = 2

abbrev pub retryable_status : Option ℕ → Bool
retryable_status none = true
retryable_status (some status) = leb 500 status

-- `lower` gives the bytes of a text in lower case, without the space around it.
unfoldable pub retryable_outcome_failure : (String → Bytes) → String → Bool
unfolding outcome_error_status
retryable_outcome_failure lower err_text = retryable_status (outcome_error_status (lower err_text))

abbrev pub retry_directive : String → String → String
retry_directive tool err =
    "Your " +++ tool
    +++ " call failed on the operator's side, which is not a rejection of what you sent: " +++ err
    +++ ". That is a transient failure, so the same call should succeed. Call " +++ tool
    +++ " again with the SAME arguments. Do not finish the turn until the call succeeds."

abbrev pub refusal_directive : String → String → String
refusal_directive tool err =
    "Your " +++ tool +++ " call was REFUSED by the operator: " +++ err
    +++ ". This is a client error, so the IDENTICAL call will never succeed - do not resend it "
    +++ "unchanged and do not retry it in a loop. If the refusal names something you can correct "
    +++ "(a missing or malformed argument), fix that one thing and call " +++ tool
    +++ " once more. If instead it describes a precondition you cannot change, STOP: finish the "
    +++ "turn and file it with report_internal_issue."

unfoldable pub reprompt_directive : String → String → Bool → String
unfolding trim_space
reprompt_directive tool err_text retryable =
    if retryable
    then retry_directive tool (trim_space err_text)
    else refusal_directive tool (trim_space err_text)
