-- ===== src/StopHook.antt =====
-- cmd/cc-stop-hook: the command that claude runs at the end of a turn, which posts a report to the
-- wrapper. The JSON encoders and decoders, the readers of files, and HTTP are parameters; the logs and
-- the exit status, which is always 0, are left out.
pub mod Laws
pub mod Late
mod Examples
use tatara_claude_code_wrapp.Common.{
  ℕ, zero, suc, ◌+◌, Bool, true, false, List, [], ◌∷◌, Option, none, some, String, Time,
  if◌then◌else◌, is_empty, ltb,
}
use tatara_claude_code_wrapp.Session.State.{HookResult, Manager}
use tatara_claude_code_wrapp.Transcript.Scan.{Transcript}
use tatara_claude_code_wrapp.Transcript.Result.{AssistantLine, last_assistant}
use tatara_claude_code_wrapp.Transcript.Tokens.{
  TurnLine, TurnTokens, SumResult, read_error, panic, sums, sum_turn_tokens,
}
use tatara_claude_code_wrapp.Api.{turn_complete}

pub record HookPayload : Type 0 where
  pub session_id : String
  pub transcript_path : String
  pub last_assistant_message : String

-- `transcript` is the content of the file at a path; `result_json` that of the result's file, if it can
-- be read and is valid JSON.
pub record Reads : Type 0 where
  pub parse_payload : String → Option HookPayload
  pub assistant_line : String → Option AssistantLine
  pub turn_line : String → Option TurnLine
  pub transcript : String → Transcript
  pub result_json : Option String

pub data Built : Type 0 where
  bad_payload panics : Built
  built : HookResult → Built

abbrev pub with_text : Option (String × String × String) → HookResult → HookResult
with_text none r = r
with_text (some (text, usage, stop)) r = record r {
  usage = usage;
  stop_reason = stop;
  final_text = if is_empty r.final_text then text else r.final_text;
}

abbrev pub with_tokens : SumResult → HookResult → Built
with_tokens read_error r = built r
with_tokens panic r = panics
with_tokens (sums tokens) r = built (record r { turn_tokens = tokens })

abbrev pub with_result : Option String → Built → Built
with_result (some b) (built r) = built (record r { result_json = b })
with_result none b = b
with_result (some b) bad_payload = bad_payload
with_result (some b) panics = panics

abbrev pub from_payload : HookPayload → HookResult
from_payload hp = record {
  session_id = hp.session_id;
  final_text = hp.last_assistant_message;
  result_json = "";
  usage = "";
  stop_reason = "";
  transcript_path = hp.transcript_path;
  turn_tokens = [];
}

abbrev pub from_transcript : Reads → HookPayload → Built
from_transcript x hp =
    if is_empty hp.transcript_path
    then built (from_payload hp)
    else let t = x.transcript hp.transcript_path in
      with_tokens (sum_turn_tokens x.turn_line t)
        (with_text (last_assistant x.assistant_line t) (from_payload hp))

abbrev pub report_of : Reads → Option HookPayload → Built
report_of x none = bad_payload
report_of x (some hp) = with_result x.result_json (from_transcript x hp)

unfoldable pub build_result : Reads → String → Built
unfolding last_assistant sum_turn_tokens
build_result x payload = report_of x (x.parse_payload payload)

-- What becomes of one attempt: its request cannot be made, does not reach the server, reaches it but
-- its answer does not come back, or is answered.
pub data Delivery : Type 0 where
  unmade unreached answer_lost answered : Delivery

-- With the number of the attempt, from 1, and the status.
pub data PostError : Type 0 where
  no_request : PostError
  transport : ℕ → PostError
  unexpected : ℕ → ℕ → PostError

-- `handle` is what the server does with the request of an attempt, and `between` what others do to it
-- ahead of one.
pub record Wire {ℓ} (S : Type ℓ) : Type ℓ where
  pub delivery : ℕ → Delivery
  pub handle : ℕ → S → S × ℕ
  pub between : ℕ → S → S

abbrev pub max_post_attempts : ℕ
max_post_attempts = 5

module _ {ℓ} {S : Type ℓ} where
  -- So many attempts, from the one of a number.
  unfoldable pub attempts : Wire S → ℕ → ℕ → Option PostError → S → S × Option PostError
  attempts w zero n last s = (s, last)
  attempts w (suc left) n last s =
      let s1 = w.between n s in
      let r = w.handle n s1 in
      let lost = some (transport (n + 1)) in
      let rest = attempts w left (n + 1) (some (unexpected (n + 1) r.1)) r.0 in
      elim (w.delivery n) [
        | unmade ↦ (s1, some no_request)
        | unreached ↦ attempts w left (n + 1) lost s1
        | answer_lost ↦ attempts w left (n + 1) lost r.0
        | answered ↦ if ltb r.1 300 then (r.0, none) else rest
      ]

  unfoldable pub post_with_retry : Wire S → S → S × Option PostError
  unfolding attempts
  post_with_retry w s = attempts w max_post_attempts 0 none s

-- The wrapper as the server; `decoded` is what it decodes of the body.
abbrev pub to_session :
    (ℕ → Delivery) → Option HookResult → (ℕ → Time) → (ℕ → Manager → Manager) → Wire Manager
to_session delivery decoded now between = record {
  delivery = delivery;
  handle = λ n m. let r = turn_complete decoded (now n) m in (r.0, r.1.status);
  between = between;
}
