-- ===== src/Wrapper/Finalize.antt =====
-- cmd/wrapper/app.go: `finalizeTurn` behind the commit and the push. It runs on a goroutine for each
-- turn; what it does under one lock, or with no lock at all between two, is one section, and the
-- sections of several turns interleave. The logs and the lifecycle hook are left out.
pub mod Pod
pub mod Ends
pub mod Sums
pub mod Issues
pub mod Budget
pub mod Says
pub mod Lists
use tatara_claude_code_wrapp.Common.{
  ℕ, zero, suc, ◌+◌, ◌-◌, Bool, true, false, List, [], ◌∷◌, ◌++◌, Option, none, some, String,
  if◌then◌else◌, is_empty, ltb,
}
use tatara_claude_code_wrapp.Ratelimit.{Latest}
use tatara_claude_code_wrapp.Account.{account_usage}
use tatara_claude_code_wrapp.Turn.Records.{Record, InternalIssueReport}
use tatara_claude_code_wrapp.Transcript.Scan.{Transcript}
use tatara_claude_code_wrapp.Transcript.Status.{Bytes}
use tatara_claude_code_wrapp.Transcript.Outcome.{Decoders, failed_critical_outcome}
use tatara_claude_code_wrapp.Wrapper.Repos.{RepoLists, merge_repo_lists}
use tatara_claude_code_wrapp.Wrapper.Reprompt.{
  max_outcome_reprompts, retryable_outcome_failure, reprompt_directive,
}
use tatara_claude_code_wrapp.Wrapper.Payload.{CallbackPayload, new_callback_payload}
use tatara_claude_code_wrapp.Wrapper.Turn.{Config}

-- What of the app the turns share; `reprompts` are the labels of `OutcomeRepromptTotal`.
pub record App : Type 0 where
  pub outcome_reprompts : ℕ
  pub held_internal_issues : List InternalIssueReport
  pub held_repos : RepoLists
  pub reprompts : List (String × String)

abbrev pub no_repos : RepoLists
no_repos = record { pushed = []; failed = [] }

abbrev pub new_app : App
new_app = record {
  outcome_reprompts = 0;
  held_internal_issues = [];
  held_repos = no_repos;
  reprompts = [];
}

-- What a turn reads of the session when it is at it: the drained reports, the transcript's path and
-- content, whether the session takes the submission, and the snapshot of the usage.
pub record Reads (P : Type 0) : Type 0 where
  pub drained : List InternalIssueReport
  pub transcript_path : String
  pub transcript : Transcript
  pub accepts : String → String → Bool
  pub limits : Option (Latest P)

-- Where a turn stands. A tool and an error text are those of its rejected outcome.
pub data Stage : Type 0 where
  pushed issues_taken repos_taken delivering delivered suppressed : Stage
  rejected claimed reprompted : String → String → Stage
  rolling_back : String → Stage
  issues_held : Stage

-- `sent` is what was handed to the webhook's sender, the address and the body; `submitted` the text of
-- the re-prompt.
pub record Flight (P : Type 0) : Type 0 where
  pub rec : Record
  pub reads : Reads P
  pub stage : Stage
  pub submitted : Option String
  pub sent : Option (String × CallbackPayload P)

pub record Setup : Type 0 where
  pub cfg : Config
  pub decoders : Decoders
  pub lower : String → Bytes

abbrev pub lists_of : Record → RepoLists
lists_of rec = record { pushed = rec.pushed_repos; failed = rec.failed_repos }

abbrev pub with_lists : RepoLists → Record → Record
with_lists l rec = record rec { pushed_repos = l.pushed; failed_repos = l.failed }

abbrev pub stage_of : Option (Option (String × String)) → Stage
stage_of none = delivering
stage_of (some none) = delivering
stage_of (some (some (tool, err_text))) = rejected tool err_text

abbrev pub count_reprompt : String → String → App → App
count_reprompt tool result a = record a { reprompts = a.reprompts ++ (tool, result) ∷ [] }

abbrev pub reprompt_label : Bool → String
reprompt_label retryable = if retryable then "reprompted" else "reprompted_corrective"

module _ {P : Type 0} where
  -- `takePendingInternalIssues` and the drain.
  unfoldable pub take_issues : App → Flight P → App × Flight P
  take_issues a f = (
    record a { held_internal_issues = [] },
    record f {
      rec = record f.rec { internal_issues = a.held_internal_issues ++ f.reads.drained };
      stage = issues_taken;
    },
  )

  unfoldable pub take_repos : App → Flight P → App × Flight P
  unfolding merge_repo_lists
  take_repos a f = (
    record a { held_repos = no_repos },
    record f {
      rec = with_lists (merge_repo_lists a.held_repos (lists_of f.rec)) f.rec;
      stage = repos_taken;
    },
  )

  unfoldable pub look : Setup → Flight P → Flight P
  unfolding failed_critical_outcome
  look s f =
      if is_empty f.reads.transcript_path
      then record f { stage = delivering }
      else record f { stage = stage_of (failed_critical_outcome s.decoders f.reads.transcript) }

  -- The budget of `reprompt`.
  unfoldable pub claim : String → String → App → Flight P → App × Flight P
  claim tool err_text a f =
      if ltb a.outcome_reprompts max_outcome_reprompts
      then (
        record a { outcome_reprompts = a.outcome_reprompts + 1 },
        record f { stage = claimed tool err_text },
      )
      else (count_reprompt tool "budget_exhausted" a, record f { stage = delivering })

  -- `submitFn`.
  unfoldable pub submit : Setup → String → String → Flight P → Flight P
  unfolding retryable_outcome_failure reprompt_directive
  submit s tool err_text f =
      let msg = reprompt_directive tool err_text (retryable_outcome_failure s.lower err_text) in
      if f.reads.accepts msg f.rec.callback_url
      then record f { stage = reprompted tool err_text; submitted = some msg }
      else record f { stage = rolling_back tool }

  unfoldable pub roll_back : String → App → Flight P → App × Flight P
  roll_back tool a f = (
    count_reprompt tool "budget_exhausted"
        (record a { outcome_reprompts = a.outcome_reprompts - 1 }),
    record f { stage = delivering },
  )

  unfoldable pub hold_internal_issues : Setup → String → String → App → Flight P → App × Flight P
  unfolding retryable_outcome_failure
  hold_internal_issues s tool err_text a f = (
    count_reprompt tool (reprompt_label (retryable_outcome_failure s.lower err_text))
        (record a { held_internal_issues = a.held_internal_issues ++ f.rec.internal_issues }),
    record f { stage = issues_held },
  )

  unfoldable pub hold_repo_lists : App → Flight P → App × Flight P
  unfolding merge_repo_lists
  hold_repo_lists a f = (
    record a { held_repos = merge_repo_lists a.held_repos (lists_of f.rec) },
    record f { stage = suppressed },
  )

  abbrev pub callback_of : Setup → Flight P → String × CallbackPayload P
  callback_of s f = (
    if is_empty f.rec.callback_url then s.cfg.default_callback_url else f.rec.callback_url,
    new_callback_payload f.rec s.cfg.task_name (account_usage f.reads.limits),
  )

  unfoldable pub deliver : Setup → Flight P → Flight P
  unfolding account_usage
  deliver s f = record f { stage = delivered; sent = some (callback_of s f) }

  abbrev pub section : Setup → Stage → App → Flight P → App × Flight P
  section s pushed a f = take_issues a f
  section s issues_taken a f = take_repos a f
  section s repos_taken a f = (a, look s f)
  section s (rejected tool err_text) a f = claim tool err_text a f
  section s (claimed tool err_text) a f = (a, submit s tool err_text f)
  section s (rolling_back tool) a f = roll_back tool a f
  section s (reprompted tool err_text) a f = hold_internal_issues s tool err_text a f
  section s issues_held a f = hold_repo_lists a f
  section s delivering a f = (a, deliver s f)
  section s delivered a f = (a, f)
  section s suppressed a f = (a, f)

  -- The next section of a turn; none is left of one that is delivered or suppressed.
  unfoldable pub advance : Setup → App → Flight P → App × Flight P
  unfolding take_issues take_repos look claim submit roll_back hold_internal_issues hold_repo_lists
      deliver
  advance s a f = section s f.stage a f

  -- A turn alone: so many sections of it.
  unfoldable pub advances : Setup → ℕ → App → Flight P → App × Flight P
  unfolding advance
  advances s zero a f = (a, f)
  advances s (suc n) a f = let r = advance s a f in advances s n r.0 r.1

abbrev pub most_sections : ℕ
most_sections = 7

module _ {P : Type 0} where
  -- The whole of it, with nothing in between.
  unfoldable pub finalize_turn : Setup → App → Flight P → App × Flight P
  unfolding advances
  finalize_turn s a f = advances s most_sections a f
