-- ===== src/Bootstrap/Reconcile.antt =====
-- internal/bootstrap/bootstrap.go: the merges of a task branch with its remote counterpart and with
-- its base branch.
use tatara_claude_code_wrapp.Common.{
  Bool, List, [], ◌∷◌, Option, none, some, String, if◌then◌else◌, is_empty, ◌+++◌,
}
use tatara_claude_code_wrapp.Bootstrap.Git.{Trace, Git, command, after, succeeds}

unfoldable pub unshallow_best_effort : String → Bool → Trace → Trace
unshallow_best_effort dir full_clone t =
    if full_clone then t else after dir ("fetch" ∷ "--unshallow" ∷ "origin" ∷ []) t

abbrev pub local_in_remote : List String
local_in_remote = "merge-base" ∷ "--is-ancestor" ∷ "HEAD" ∷ "FETCH_HEAD" ∷ []

abbrev pub is_ancestor : String → List String
is_ancestor ref = "merge-base" ∷ "--is-ancestor" ∷ ref ∷ "HEAD" ∷ []

abbrev pub merge : String → String → List String
merge msg ref = "merge" ∷ "-m" ∷ msg ∷ ref ∷ []

abbrev pub merge_abort : List String
merge_abort = "merge" ∷ "--abort" ∷ []

abbrev pub fast_forward : List String
fast_forward = "merge" ∷ "--ff-only" ∷ "FETCH_HEAD" ∷ []

-- A merge that is undone if it fails.
unfoldable pub merge_or_abort :
    Git → String → String → String → String → String → Trace → Trace × String
merge_or_abort git dir msg ref merged conflict t =
    let t1 = after dir (merge msg ref) t in
    if succeeds git dir (merge msg ref) t
    then (t1, merged)
    else (after dir merge_abort t1, conflict)

unfoldable pub merge_remote_task_branch : Git → String → String → Trace → Trace × String
unfolding merge_or_abort
merge_remote_task_branch git dir task_branch t =
    let t1 = after dir (is_ancestor "FETCH_HEAD") t in
    let t2 = after dir local_in_remote t1 in
    if succeeds git dir (is_ancestor "FETCH_HEAD") t
    then (t1, "local_ahead")
    else if succeeds git dir local_in_remote t1
    then (
      after dir fast_forward t2,
      if succeeds git dir fast_forward t2 then "remote_ahead" else "local_remote_conflict",
    )
    else merge_or_abort git dir ("tatara bootstrap: reconcile local and remote " +++ task_branch)
        "FETCH_HEAD" "local_remote_merged" "local_remote_conflict" t2

abbrev pub wrapped : String → Option String → Option String
wrapped what none = none
wrapped what (some e) = some (what +++ ": " +++ e)

unfoldable pub merge_base : Git → String → String → String → Trace → Trace × String
unfolding merge_or_abort
merge_base git dir task_branch base_ref t =
    let t1 = after dir (is_ancestor base_ref) t in
    if succeeds git dir (is_ancestor base_ref) t
    then (t1, "up_to_date")
    else merge_or_abort git dir
        ("tatara bootstrap: reconcile " +++ task_branch +++ " with " +++ base_ref) base_ref "merged"
        "conflict" t1

abbrev pub fetch_origin : List String
fetch_origin = "fetch" ∷ "origin" ∷ []

abbrev pub set_head : List String
set_head = "remote" ∷ "set-head" ∷ "origin" ∷ "--auto" ∷ []

-- The base branch once `origin` was fetched.
unfoldable pub reconcile_fetched : Git → String → String → String → Trace → Trace × String
unfolding merge_base
reconcile_fetched git dir task_branch base_branch t =
    if is_empty base_branch
    then (if succeeds git dir set_head t
        then merge_base git dir task_branch "origin/HEAD" (after dir set_head t)
        else (after dir set_head t, "base_unresolved"))
    else merge_base git dir task_branch ("origin/" +++ base_branch) t

unfoldable pub reconcile_with_base :
    Git → String → String → String → Trace → Trace × String × Option String
unfolding reconcile_fetched
reconcile_with_base git dir task_branch base_branch t =
    let t1 = after dir fetch_origin t in
    let r = reconcile_fetched git dir task_branch base_branch t1 in
    if succeeds git dir fetch_origin t then (r.0, r.1, none) else (
      t1,
      "fetch_fail",
      wrapped ("fetch origin to reconcile resumed branch " +++ task_branch)
          (git t (command dir fetch_origin)),
    )
