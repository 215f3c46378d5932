-- ===== src/Wrapper/Examples.antt =====
-- cmd/wrapper/app.go: two turns that end at the same time. The operator refused the outcome of the
-- first, which reported an issue and could not push; the second has pushed.
use tatara_claude_code_wrapp.Common.{
  ℕ, ◌+◌, ◌≡◌, ◌≤◌, refl, true, false, List, [], ◌∷◌, none, some, String, contains, arith, lookup,
  insert,
}
use tatara_claude_code_wrapp.Turn.Records.{Record, InternalIssueReport, complete}
use tatara_claude_code_wrapp.Transcript.Scan.{scanned, unopened}
use tatara_claude_code_wrapp.Transcript.Outcome.{OutcomeBlock, note_blocks, note_block}
use tatara_claude_code_wrapp.Transcript.ToolName.{bare_tool_name}
use tatara_claude_code_wrapp.Wrapper.Repos.{RepoLists, merge_repo_lists}
use tatara_claude_code_wrapp.Wrapper.Repos.Laws.{Distinct, Merges, merge_repo_lists_lem}
use tatara_claude_code_wrapp.Wrapper.Finalize.{Setup, Reads, new_app}
use tatara_claude_code_wrapp.Wrapper.Finalize.Pod.{new_pod, new_flight, Event, begins, moves, run}
use tatara_claude_code_wrapp.Wrapper.Finalize.Ends.{among, Ended, finalize_ends}
use tatara_claude_code_wrapp.Wrapper.Finalize.Sums.{total}
use tatara_claude_code_wrapp.Wrapper.Finalize.Issues.{held, carried, drained, no_report_lost}
use tatara_claude_code_wrapp.Wrapper.Finalize.Budget.{ended_in, delivered_in, callbacks_get_through}
use tatara_claude_code_wrapp.Wrapper.Finalize.Says.{Keeps}
use tatara_claude_code_wrapp.Wrapper.Finalize.Lists.{events_say, pod_says, no_repo_forgotten}

abbrev call : OutcomeBlock
call = record {
  type = "tool_use";
  id = "toolu_1";
  name = "submit_outcome";
  tool_use_id = "";
  is_error = false;
  content = "";
}

abbrev refused : OutcomeBlock
refused = record {
  type = "tool_result";
  id = "";
  name = "";
  tool_use_id = "toolu_1";
  is_error = true;
  content = "[400]";
}

abbrev setup : Setup
setup = record {
  cfg = record {
    workspace = "/workspace";
    task_branch = "task-7";
    repos = [];
    repo_url = "https://github.com/org/one";
    task_name = "task-7";
    default_callback_url = "http://operator/internal/turn-complete";
  };
  decoders = record {
    line = λ l. some (record { type = "user"; message = some (call ∷ refused ∷ []) });
    text = λ raw. none;
  };
  lower = λ text. 91 ∷ 52 ∷ 48 ∷ 48 ∷ 93 ∷ [];
}

abbrev record_of : String → List String → List String → Record
record_of id pushed failed = record {
  id = id;
  state = complete;
  text = "go";
  callback_url = "";
  final_text = "done";
  result_json = "";
  usage = "";
  stop_reason = "end_turn";
  error = "";
  started_at = 5;
  last_activity_at = 7;
  completed_at = some 9;
  pushed_repos = pushed;
  failed_repos = failed;
  internal_issues = [];
}

abbrev issue : InternalIssueReport
issue = record {
  category = "tooling";
  severity = "high";
  description = "the push was refused";
  offending_tool = "git";
  resource_id = "";
}

abbrev reads_refused : Reads ℕ
reads_refused = record {
  drained = issue ∷ [];
  transcript_path = "/t.jsonl";
  transcript = scanned ("line" ∷ []) false;
  accepts = λ msg url. true;
  limits = none;
}

abbrev reads_plain : Reads ℕ
reads_plain = record {
  drained = [];
  transcript_path = "";
  transcript = unopened;
  accepts = λ msg url. false;
  limits = none;
}

-- The second turn stands before the first one in the pod's list.
abbrev schedule : List (Event ℕ)
schedule =
    begins (record_of "t1" [] ("one" ∷ [])) reads_refused
    ∷ moves 0
    ∷ moves 0
    ∷ moves 0
    ∷ begins (record_of "t2" ("two" ∷ []) []) reads_plain
    ∷ moves 1
    ∷ moves 1
    ∷ moves 0
    ∷ moves 1
    ∷ moves 1
    ∷ moves 0
    ∷ moves 0
    ∷ moves 0
    ∷ []

abbrev ones : InternalIssueReport → ℕ
ones r = 1

no_report_lost_example :
    held ones (run setup schedule new_pod).app
      + total (carried ones) (run setup schedule new_pod).flights
    ≡ total (drained ones) (run setup schedule new_pod).flights
no_report_lost_example = no_report_lost ones setup schedule

callbacks_get_through_example :
    (total ended_in (run setup schedule new_pod).flights
      ≤ total delivered_in (run setup schedule new_pod).flights + 2)
    × ((run setup schedule new_pod).app.outcome_reprompts ≤ 2)
callbacks_get_through_example = callbacks_get_through setup schedule

no_repo_forgotten_example :
    Keeps (events_say "one" schedule) (pod_says "one" (run setup schedule new_pod))
no_repo_forgotten_example = no_repo_forgotten "one" setup schedule

finalize_ends_example : Ended setup (
    among setup
      (new_app ∷ new_app ∷ new_app ∷ new_app ∷ new_app ∷ new_app ∷ new_app ∷ [])
      (new_flight (record_of "t1" [] ("one" ∷ [])) reads_refused))
finalize_ends_example =
    finalize_ends setup (record_of "t1" [] ("one" ∷ [])) reads_refused
      (new_app ∷ new_app ∷ new_app ∷ new_app ∷ new_app ∷ new_app ∷ new_app ∷ []) (omega arith)

abbrev before_lists : RepoLists
before_lists = record { pushed = "one" ∷ "two" ∷ []; failed = "three" ∷ "four" ∷ [] }

abbrev now_lists : RepoLists
now_lists = record { pushed = "three" ∷ []; failed = "two" ∷ [] }

merge_repo_lists_lem_example :
    Distinct (merge_repo_lists before_lists now_lists).pushed
    × Distinct (merge_repo_lists before_lists now_lists).failed
    × ((n : String) → Merges before_lists now_lists (merge_repo_lists before_lists now_lists) n)
merge_repo_lists_lem_example = merge_repo_lists_lem before_lists now_lists

merged_lists :
    merge_repo_lists before_lists now_lists
    ≡ record { pushed = "one" ∷ "three" ∷ []; failed = "four" ∷ "two" ∷ [] }
unfolding merge_repo_lists contains
merged_lists = refl

-- The second turn looked before the first one held its issue, which waits for the next callback.
second_looked_first :
    (total ended_in (run setup schedule new_pod).flights ≡ 2)
    × (total delivered_in (run setup schedule new_pod).flights ≡ 1)
    × (held ones (run setup schedule new_pod).app ≡ 1)
unfolding run contains note_blocks note_block lookup insert bare_tool_name
second_looked_first = (refl, refl, refl)
