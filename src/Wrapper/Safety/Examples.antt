-- ===== src/Wrapper/Safety/Examples.antt =====
-- cmd/wrapper/safetypush.go: two ticks over two repositories, one of which is at the root.
use tatara_claude_code_wrapp.Common.{◌≡◌, refl, true, false, [], ◌∷◌, none, some, ◌+++◌, trim_space}
use tatara_claude_code_wrapp.Common.Int.{pos}
use tatara_claude_code_wrapp.Bootstrap.World.{World, run}
use tatara_claude_code_wrapp.Bootstrap.Push.{Paths}
use tatara_claude_code_wrapp.Bootstrap.Namespace.{namespace_path}
use tatara_claude_code_wrapp.Wrapper.Safety.{SafetyPusher, start}
use tatara_claude_code_wrapp.Wrapper.Safety.Laws.{PushesOnly, no_pushes, start-PushesOnly}

abbrev world : World
world = record {
  git = λ t c. elim t [ [] ↦ some "exit 1" | d ∷ ds ↦ none ];
  metrics = true;
  has_git_dir = λ dest. true;
  remove_all = λ t dest. none;
  opens_root = λ dest. true;
  removes_lock = λ dest name. false;
  refs = λ dest. [];
  has_marker = λ t dest marker. false;
  files = λ t dest. [];
  head = λ t dest. none;
  ref = λ t dest ref. none;
}

abbrev paths : Paths
paths = record { join = λ a b. a +++ "/" +++ b; clean = λ a. a; base = λ a. a }

abbrev pusher : SafetyPusher
pusher = record {
  workspace = "/workspace";
  task_branch = "task-7";
  repos =
      record { name = "one"; url = "https://github.com/org/one" }
      ∷ record { name = "root"; url = "https://github.com" }
      ∷ [];
  repo_url = "";
  interval = pos 120;
}

start-PushesOnly_example : PushesOnly paths pusher (start (λ s. s) world paths pusher 2 no_pushes)
start-PushesOnly_example = start-PushesOnly (λ s. s) world paths pusher 2

one_of_two_fails :
    ((start (λ s. s) world paths pusher 2 no_pushes).ok_count ≡ 1)
    × ((start (λ s. s) world paths pusher 2 no_pushes).fail_count ≡ 1)
unfolding start namespace_path trim_space run
one_of_two_fails = (refl, refl)
