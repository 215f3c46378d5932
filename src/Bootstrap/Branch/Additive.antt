-- ===== src/Bootstrap/Branch/Additive.antt =====
-- internal/bootstrap/bootstrap.go: a local task branch is never reset.
use mathlib.Core.Path.{subst}
use tatara_claude_code_wrapp.Common.{List, [], ◌∷◌, String, sym, ◌≡◌, true, if_holds, All}
use tatara_claude_code_wrapp.Bootstrap.Git.{Command, Trace, Git, after, succeeds}
use tatara_claude_code_wrapp.Bootstrap.Branch.{
  Params, Arm, local_probe, remote_probe, arm, probe_local, checkout_task_branch,
}
use tatara_claude_code_wrapp.Bootstrap.Branch.Steps.{
  Adds, IsKept, join_kept, keep_local_kept, finish_kept, probed_kept,
}

-- A command that drops nothing of a checkout with the task branch `b`, nor of `origin`: one of those
-- above, or a merge, which git refuses, undoes or completes with a commit of its own.
pub data IsAdditiveCommand (b : String) : List String → Type 0 where
  adds : (args : List String) → Adds b args → IsAdditiveCommand b args
  merges : (msg ref : String) → IsAdditiveCommand b ("merge" ∷ "-m" ∷ msg ∷ ref ∷ [])
  moves_ahead : IsAdditiveCommand b ("merge" ∷ "--ff-only" ∷ "FETCH_HEAD" ∷ [])
  undoes_merge : IsAdditiveCommand b ("merge" ∷ "--abort" ∷ [])

abbrev pub IsAdditive : String → Trace → Type 0
IsAdditive b t = All (λ (c : Command). IsAdditiveCommand b c.args) t

IsAdditive-IsKept : (git : Git) (dir b : String) → IsKept git dir b (IsAdditive b)
IsAdditive-IsKept git dir b = record {
  ran = λ args t d h. (adds args d, h);
  advanced = λ t h. (moves_ahead, h);
  merged = λ msg ref t e h. (merges msg ref, h);
  undone = λ msg ref t h. (undoes_merge, (merges msg ref, h));
}

-- On a checkout that survived from an earlier pod and has the task branch, every command that is run
-- only adds to it, if that held of the commands before: it looks, fetches, goes to the branch, merges
-- or aborts a merge, records the head of `origin`, or pushes the branch with no flag that forces it,
-- whatever git answers. So none resets the branch or checks it out anew.
pub checkout-IsAdditive :
    (git : Git) (dir : String) (p : Params) (t : Trace)
    → p.persistent ≡ true
    → succeeds git dir (local_probe p.task_branch) t ≡ true
    → IsAdditive p.task_branch t
    → IsAdditive p.task_branch (checkout_task_branch git dir p t).trace
unfolding checkout_task_branch arm
checkout-IsAdditive git dir p t persistent here h =
    let b = p.task_branch in
    let Q = IsAdditive b in
    let k = IsAdditive-IsKept git dir b in
    let probed = probe_local git dir p t in
    let remote = succeeds git dir (remote_probe b) probed.0 in
    let t1 = after dir (remote_probe b) probed.0 in
    let h1 : Q t1 = probed_kept git dir p Q k t h in
    let found : probed.1 ≡ true = rw persistent here in
    finish_kept git dir p Q k (arm git dir p probed.1 remote t1) (
      subst (λ c. Q (arm git dir p c remote t1).0) (sym found)
        (if_holds (λ (r : Trace × Arm). Q r.0) remote _ _
          (λ f. join_kept git dir b Q k p.full_clone t1 h1)
          (λ f. keep_local_kept git dir b Q k p.full_clone p.reconcile t1 h1)))
