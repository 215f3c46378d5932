-- ===== src/Wrapper/Safety.antt =====
-- cmd/wrapper/safetypush.go: the pushes of the task branch while a turn still runs. The package
-- `strings` lowers a text by a parameter; the logs are left out.
mod Laws
mod Examples
use tatara_claude_code_wrapp.Common.{
  ◌+◌, ℕ, zero, suc, Bool, true, false, List, [], ◌∷◌, Option, none, some, String, if◌then◌else◌,
  is_empty,
}
use tatara_claude_code_wrapp.Common.Int.{ℤ}
use tatara_claude_code_wrapp.Bootstrap.World.{World, Repair}
use tatara_claude_code_wrapp.Bootstrap.Claim.{RepoSpec}
use tatara_claude_code_wrapp.Bootstrap.Push.{Paths, repo_dir, push_only, auto_push_enabled}

pub record SafetyPusher : Type 0 where
  pub workspace : String
  pub task_branch : String
  pub repos : List RepoSpec
  pub repo_url : String
  pub interval : ℤ

unfoldable pub enabled : SafetyPusher → Bool
unfolding auto_push_enabled
enabled s = auto_push_enabled s.task_branch s.interval

abbrev pub unless_empty : String → List String → List String
unless_empty dir dirs = if is_empty dir then dirs else dir ∷ dirs

unfoldable pub dirs_of : Paths → String → List RepoSpec → List String
unfolding repo_dir
dirs_of p workspace [] = []
dirs_of p workspace (r ∷ rs) = unless_empty (repo_dir p workspace r.url) (dirs_of p workspace rs)

abbrev pub dirs_or_single : Paths → SafetyPusher → List RepoSpec → List String
dirs_or_single p s [] = unless_empty (repo_dir p s.workspace s.repo_url) []
dirs_or_single p s (r ∷ rs) = dirs_of p s.workspace (r ∷ rs)

unfoldable pub repo_dirs : Paths → SafetyPusher → List String
unfolding dirs_of repo_dir
repo_dirs p s = dirs_or_single p s s.repos

-- With the counts of `SafetyPushTotal`.
pub record SafetyPushes : Type 0 where
  pub state : Repair
  pub ok_count : ℕ
  pub fail_count : ℕ

abbrev pub counted : Repair × Option String → SafetyPushes → SafetyPushes
counted (s, none) c = record c { state = s; ok_count = c.ok_count + 1 }
counted (s, some e) c = record c { state = s; fail_count = c.fail_count + 1 }

unfoldable pub push_dirs :
    (String → String) → World → String → List String → SafetyPushes → SafetyPushes
unfolding push_only
push_dirs to_lower w branch [] c = c
push_dirs to_lower w branch (dir ∷ dirs) c =
    push_dirs to_lower w branch dirs (counted (push_only to_lower w dir branch c.state) c)

unfoldable pub push_once :
    (String → String) → World → Paths → SafetyPusher → SafetyPushes → SafetyPushes
unfolding push_dirs repo_dirs
push_once to_lower w p s c =
    if is_empty s.task_branch then c else push_dirs to_lower w s.task_branch (repo_dirs p s) c

-- The loop, with so many ticks before its context ends.
unfoldable pub loop :
    (String → String) → World → Paths → SafetyPusher → ℕ → SafetyPushes → SafetyPushes
unfolding push_once
loop to_lower w p s zero c = c
loop to_lower w p s (suc ticks) c = loop to_lower w p s ticks (push_once to_lower w p s c)

unfoldable pub start :
    (String → String) → World → Paths → SafetyPusher → ℕ → SafetyPushes → SafetyPushes
unfolding enabled loop
start to_lower w p s ticks c = if enabled s then loop to_lower w p s ticks c else c
