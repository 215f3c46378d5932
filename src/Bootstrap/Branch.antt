-- ===== src/Bootstrap/Branch.antt =====
-- internal/bootstrap/bootstrap.go: the task branch of a checkout, brought up to date with its remote
-- counterpart and with the base branch.
pub mod Steps
pub mod Additive
pub mod Settled
mod Examples
use tatara_claude_code_wrapp.Common.{
  Bool, true, false, not, List, [], ◌∷◌, Option, none, some, String, if◌then◌else◌, is_empty, ◌+++◌,
}
use tatara_claude_code_wrapp.Bootstrap.Git.{Trace, Git, command, after, succeeds}
use tatara_claude_code_wrapp.Bootstrap.Reconcile.{
  unshallow_best_effort, merge_remote_task_branch, wrapped, reconcile_with_base,
}

-- How an arm of `checkoutTaskBranch` ends: it returns that nothing was resumed, with an error or
-- without one, or goes on with the result of the task branch against its remote counterpart.
pub data Arm : Type 0 where
  returns : Option String → Arm
  goes_on : String → Arm

-- Neither branch exists.
unfoldable pub create_branch : Git → String → String → Trace → Trace × Arm
create_branch git dir b t =
    let c = "checkout" ∷ "-b" ∷ b ∷ [] in (after dir c t, returns (git t (command dir c)))

abbrev pub checkout : String → List String
checkout b = "checkout" ∷ b ∷ []

abbrev pub publish : String → List String
publish b = "push" ∷ "--no-verify" ∷ "-u" ∷ "origin" ∷ b ∷ []

abbrev pub not_checked_out : Git → String → String → Trace → Trace × Arm
not_checked_out git dir b t = (
  after dir (checkout b) t,
  returns (wrapped ("checkout local task branch " +++ b) (git t (command dir (checkout b)))),
)

-- Only the local branch exists.
unfoldable pub keep_local : Git → String → String → Bool → Bool → Trace → Trace × Arm
unfolding unshallow_best_effort
keep_local git dir b full_clone reconcile t =
    let t1 = unshallow_best_effort dir full_clone (after dir (checkout b) t) in
    if not (succeeds git dir (checkout b) t)
    then not_checked_out git dir b t
    else (if reconcile then after dir (publish b) t1 else t1, goes_on "local_only")

abbrev pub unshallow : List String
unshallow = "fetch" ∷ "--unshallow" ∷ "origin" ∷ []

abbrev pub fetch_branch : String → List String
fetch_branch b = "fetch" ∷ "origin" ∷ b ∷ []

abbrev pub take_remote : String → List String
take_remote b = "checkout" ∷ "-B" ∷ b ∷ "FETCH_HEAD" ∷ []

abbrev pub not_fetched : Git → String → String → Trace → Trace × Arm
not_fetched git dir b t = (
  after dir (fetch_branch b) t,
  returns (wrapped ("fetch remote task branch " +++ b) (git t (command dir (fetch_branch b)))),
)

-- The remote branch, of a clone with its history.
unfoldable pub adopt_unshallowed : Git → String → String → Trace → Trace × Arm
adopt_unshallowed git dir b t =
    let t1 = after dir (fetch_branch b) t in
    if not (succeeds git dir (fetch_branch b) t)
    then not_fetched git dir b t
    else if succeeds git dir (take_remote b) t1
    then (after dir (take_remote b) t1, goes_on "")
    else (after dir (take_remote b) t1, returns (git t1 (command dir (take_remote b))))

-- Only the remote branch exists.
unfoldable pub adopt_remote : Git → String → String → Bool → Trace → Trace × Arm
unfolding adopt_unshallowed
adopt_remote git dir b full_clone t =
    let t1 = after dir unshallow t in
    if full_clone
    then adopt_unshallowed git dir b t
    else if succeeds git dir unshallow t
    then adopt_unshallowed git dir b t1
    else (t1, returns (wrapped ("unshallow for resume of " +++ b) (git t (command dir unshallow))))

-- Both branches exist.
unfoldable pub join_branches : Git → String → String → Bool → Trace → Trace × Arm
unfolding unshallow_best_effort merge_remote_task_branch
join_branches git dir b full_clone t =
    let t1 = unshallow_best_effort dir full_clone (after dir (checkout b) t) in
    let r = merge_remote_task_branch git dir b (after dir (fetch_branch b) t1) in
    if not (succeeds git dir (checkout b) t)
    then not_checked_out git dir b t
    else if succeeds git dir (fetch_branch b) t1
    then (r.0, goes_on r.1)
    else not_fetched git dir b t1

abbrev pub local_probe : String → List String
local_probe b = "rev-parse" ∷ "--verify" ∷ "--quiet" ∷ ("refs/heads/" +++ b) ∷ []

abbrev pub remote_probe : String → List String
remote_probe b = "ls-remote" ∷ "--exit-code" ∷ "--heads" ∷ "origin" ∷ b ∷ []

pub record Params : Type 0 where
  pub task_branch : String
  pub base_branch : String
  pub full_clone : Bool
  pub reconcile : Bool
  pub persistent : Bool

unfoldable pub arm : Git → String → Params → Bool → Bool → Trace → Trace × Arm
unfolding create_branch keep_local adopt_remote join_branches
arm git dir p local_exists remote_exists t =
    if local_exists
    then (if remote_exists
        then join_branches git dir p.task_branch p.full_clone t
        else keep_local git dir p.task_branch p.full_clone p.reconcile t)
    else if remote_exists
    then adopt_remote git dir p.task_branch p.full_clone t
    else create_branch git dir p.task_branch t

pub record Checkout : Type 0 where
  pub trace : Trace
  pub resumed : Bool
  pub local_result : String
  pub base_result : String
  pub error : Option String

unfoldable pub finish : Git → String → Params → Trace × Arm → Checkout
unfolding reconcile_with_base
finish git dir p (t, returns e) = record {
  trace = t;
  resumed = false;
  local_result = "";
  base_result = "";
  error = e;
}
finish git dir p (t, goes_on result) =
    let r = reconcile_with_base git dir p.task_branch p.base_branch t in
    if p.reconcile
    then record {
      trace = r.0;
      resumed = true;
      local_result = result;
      base_result = r.1;
      error = r.2;
    }
    else record { trace = t; resumed = true; local_result = result; base_result = ""; error = none }

-- What the probe of the local branch leaves, and whether there is one.
abbrev pub probe_local : Git → String → Params → Trace → Trace × Bool
probe_local git dir p t =
    if p.persistent
    then (after dir (local_probe p.task_branch) t, succeeds git dir (local_probe p.task_branch) t)
    else (t, false)

unfoldable pub checkout_task_branch : Git → String → Params → Trace → Checkout
unfolding arm finish
checkout_task_branch git dir p t =
    let probed = probe_local git dir p t in
    finish git dir p (
      arm git dir p probed.1 (succeeds git dir (remote_probe p.task_branch) probed.0)
        (after dir (remote_probe p.task_branch) probed.0))
