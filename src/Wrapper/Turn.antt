-- ===== src/Wrapper/Turn.antt =====
-- cmd/wrapper/app.go: what the end of a turn does to the repositories, before the callback.
use tatara_claude_code_wrapp.Common.{
  ◌&&◌, not, Bool, true, false, List, [], ◌∷◌, Option, none, some, String, if◌then◌else◌, is_empty,
  ◌+++◌,
}
use tatara_claude_code_wrapp.Turn.Records.{Record}
use tatara_claude_code_wrapp.Bootstrap.World.{World, Repair}
use tatara_claude_code_wrapp.Bootstrap.Claim.{RepoSpec}
use tatara_claude_code_wrapp.Bootstrap.Push.{Paths, repo_dir, commit_and_push, commit_and_push_all}

-- What of the configuration is read here.
pub record Config : Type 0 where
  pub workspace : String
  pub task_branch : String
  pub repos : List RepoSpec
  pub repo_url : String
  pub task_name : String
  pub default_callback_url : String

unfoldable pub primary_repo_name : Paths → Config → String
unfolding repo_dir
primary_repo_name p cfg =
    let dir = repo_dir p cfg.workspace cfg.repo_url in if is_empty dir then "" else p.base dir

-- `failed` is whether there was an error, the label of `CommitPushTotal`; nothing is counted without
-- a task branch.
pub record TurnPush : Type 0 where
  pub state : Repair
  pub rec : Record
  pub failed : Option Bool

abbrev message : Config → String
message cfg = "tatara agent: " +++ cfg.task_branch

abbrev any_error : List String → Bool
any_error [] = false
any_error (e ∷ es) = true

abbrev is_error : Option String → Bool
is_error none = false
is_error (some e) = true

unfoldable pub push_all : World → Paths → Config → Record → Repair → TurnPush
unfolding commit_and_push_all
push_all w p cfg rec s =
    let r = commit_and_push_all w p cfg.workspace cfg.repos cfg.task_branch (message cfg) s in
    record {
      state = r.state;
      rec = record rec { pushed_repos = r.pushed; failed_repos = r.failed };
      failed = some (any_error r.errors);
    }

abbrev with_pushed : Bool → String → Record → Record
with_pushed pushed name rec = if pushed then record rec { pushed_repos = name ∷ [] } else rec

abbrev with_failed : Bool → String → Record → Record
with_failed failed name rec =
    if failed && not (is_empty name) then record rec { failed_repos = name ∷ [] } else rec

unfoldable pub push_single : World → Paths → Config → Record → Repair → TurnPush
unfolding repo_dir commit_and_push primary_repo_name
push_single w p cfg rec s =
    let dir = repo_dir p cfg.workspace cfg.repo_url in
    let name = primary_repo_name p cfg in
    let done = commit_and_push w dir cfg.task_branch (message cfg) s in
    if is_empty dir
    then record { state = s; rec = with_failed true name rec; failed = some true }
    else record {
      state = done.state;
      rec = with_failed (is_error done.error) name (with_pushed done.pushed name rec);
      failed = some (is_error done.error);
    }

abbrev push_repos_of : World → Paths → Config → List RepoSpec → Record → Repair → TurnPush
push_repos_of w p cfg [] rec s = push_single w p cfg rec s
push_repos_of w p cfg (r ∷ rs) rec s = push_all w p cfg rec s

unfoldable pub push_turn : World → Paths → Config → Record → Repair → TurnPush
unfolding push_all push_single
push_turn w p cfg rec s =
    if is_empty cfg.task_branch
    then record { state = s; rec = rec; failed = none }
    else push_repos_of w p cfg cfg.repos rec s
