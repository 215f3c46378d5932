-- ===== src/Bootstrap/Resume/Examples.antt =====
-- internal/bootstrap/resume.go: the theorems on a merge that neither aborts nor can be preserved, and
-- on one whose tree is clean.
use tatara_claude_code_wrapp.Common.{
  refl, true, List, [], ◌∷◌, Option, none, some, String, str_eq, if◌then◌else◌,
}
use tatara_claude_code_wrapp.Bootstrap.Git.{Git}
use tatara_claude_code_wrapp.Bootstrap.World.{World, Repair}
use tatara_claude_code_wrapp.Bootstrap.Resume.Prepare.{prepare_workspace}
use tatara_claude_code_wrapp.Bootstrap.Resume.Careful.{
  Careful, prepare-Careful, IsAccounted, prepare-IsAccounted,
}

abbrev fresh : Repair
fresh = record { trace = []; recoveries = []; locks = []; oversized = 0; removals = [] }

-- The commands whose first word is one of the two fail.
abbrev refuses : String → String → List String → Option String
refuses a b [] = none
refuses a b (verb ∷ rest) =
    if str_eq verb a then some "fatal" else if str_eq verb b then some "fatal" else none

abbrev volume : Git → World
volume git = record {
  git = git;
  metrics = true;
  has_git_dir = λ dest. true;
  remove_all = λ t dest. none;
  opens_root = λ dest. true;
  removes_lock = λ dest name. str_eq name "index.lock";
  refs = λ dest. [];
  has_marker = λ t dest marker. str_eq marker "REVERT_HEAD";
  files = λ t dest. [];
  head = λ t dest. none;
  ref = λ t dest ref. none;
}

-- Nothing is uncommitted, and the revert does not abort.
abbrev clean : World
clean = volume (λ t c. refuses "revert" "revert" c.args)

-- The tree is dirty, and no command that would preserve it works.
abbrev lost : World
lost = volume (λ t c. refuses "diff" "checkout" c.args)

prepare-Careful_example :
    Careful clean "/work/repo" [] (prepare_workspace clean "/work/repo" fresh).state.trace
prepare-Careful_example = prepare-Careful clean "/work/repo" fresh

prepare-IsAccounted_example :
    IsAccounted lost "/work/repo" (prepare_workspace lost "/work/repo" fresh).state
prepare-IsAccounted_example = prepare-IsAccounted lost "/work/repo" fresh refl
