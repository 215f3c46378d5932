-- ===== src/Bootstrap/Push/Examples.antt =====
-- internal/bootstrap/repo.go and namespace.go: two repositories, of which git refuses the first, and
-- the addresses of the source's comment.
use tatara_claude_code_wrapp.Common.{
  ◌≡◌, refl, true, false, [], ◌∷◌, none, some, str_eq, if◌then◌else◌, ◌+++◌, trim_space,
}
use tatara_claude_code_wrapp.Bootstrap.World.{World, Repair}
use tatara_claude_code_wrapp.Bootstrap.Git.{command}
use tatara_claude_code_wrapp.Bootstrap.Resume.Rescue.{add_all}
use tatara_claude_code_wrapp.Bootstrap.Claim.{RepoSpec}
use tatara_claude_code_wrapp.Bootstrap.Namespace.{namespace_path}
use tatara_claude_code_wrapp.Bootstrap.Push.{Paths, commit_and_push_all}
use tatara_claude_code_wrapp.Bootstrap.Push.Laws.{Ran, every_repo_attempted}

abbrev fresh : Repair
fresh = record { trace = []; recoveries = []; locks = []; oversized = 0; removals = [] }

abbrev world : World
world = record {
  git = λ t c. if str_eq c.dir "/work/org/one" then some "index.lock" else none;
  metrics = true;
  has_git_dir = λ dest. true;
  remove_all = λ t dest. none;
  opens_root = λ dest. true;
  removes_lock = λ dest name. false;
  refs = λ dest. [];
  has_marker = λ t dest marker. false;
  files = λ t dest. [];
  head = λ t dest. none;
  ref = λ t dest ref. none;
}

abbrev paths : Paths
paths = record { join = λ a b. a +++ "/" +++ b; clean = λ a. a; base = λ a. a }

abbrev one : RepoSpec
one = record { name = "one"; url = "https://github.com/org/one" }

abbrev two : RepoSpec
two = record { name = "two"; url = "https://github.com/org/two" }

every_repo_attempted_example :
    Ran
      (command "/work/org/two" add_all)
      (commit_and_push_all world paths "/work" (one ∷ two ∷ []) "task-7" "turn" fresh).state.trace
unfolding namespace_path trim_space
every_repo_attempted_example =
    every_repo_attempted world paths "/work" (one ∷ []) [] two "task-7" "turn" fresh refl

https_address :
    namespace_path "https://github.com/szymonrychu/tatara-cli.git" ≡ "szymonrychu/tatara-cli"
unfolding namespace_path trim_space
https_address = refl

scp_address : namespace_path "git@github.com:szymonrychu/tatara-cli.git" ≡ "szymonrychu/tatara-cli"
unfolding namespace_path trim_space
scp_address = refl

ssh_address : namespace_path "ssh://git@host:22/group/sub/repo.git" ≡ "group/sub/repo"
unfolding namespace_path trim_space
ssh_address = refl
