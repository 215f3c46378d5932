-- ===== src/Bootstrap/Branch/Examples.antt =====
-- internal/bootstrap/bootstrap.go: the theorems on a volume whose branch conflicts with both of its
-- counterparts.
use tatara_claude_code_wrapp.Common.{
  refl, true, false, List, [], ◌∷◌, Option, none, some, String, str_eq, if◌then◌else◌,
}
use tatara_claude_code_wrapp.Bootstrap.Git.{Git}
use tatara_claude_code_wrapp.Bootstrap.Branch.{Params, checkout_task_branch}
use tatara_claude_code_wrapp.Bootstrap.Branch.Additive.{IsAdditive, checkout-IsAdditive}
use tatara_claude_code_wrapp.Bootstrap.Branch.Settled.{Settled, checkout-Settled}

abbrev conflicts : List String → Option String
conflicts [] = none
conflicts (verb ∷ []) = none
conflicts (verb ∷ flag ∷ rest) =
    if str_eq flag "--is-ancestor"
    then some "exit 1"
    else if str_eq flag "-m"
    then some "conflict"
    else none

-- Neither side contains the other, and no merge succeeds.
abbrev diverged : Git
diverged t c = conflicts c.args

abbrev params : Params
params = record {
  task_branch = "task-7";
  base_branch = "main";
  full_clone = false;
  reconcile = true;
  persistent = true;
}

checkout-IsAdditive_example :
    IsAdditive "task-7" (checkout_task_branch diverged "/work/repo" params []).trace
checkout-IsAdditive_example = checkout-IsAdditive diverged "/work/repo" params [] refl refl tt

checkout-Settled_example :
    Settled diverged "/work/repo" [] (checkout_task_branch diverged "/work/repo" params []).trace
checkout-Settled_example = checkout-Settled diverged "/work/repo" params []
