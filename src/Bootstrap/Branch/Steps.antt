-- ===== src/Bootstrap/Branch/Steps.antt =====
-- internal/bootstrap/bootstrap.go: what each command of `checkoutTaskBranch` keeps, the whole of it
-- keeps.
use tatara_claude_code_wrapp.Common.{
  ◌≡◌, Bool, true, not, List, [], ◌∷◌, Option, String, is_empty, if_holds,
}
use tatara_claude_code_wrapp.Bootstrap.Git.{Trace, Git, after, succeeds}
use tatara_claude_code_wrapp.Bootstrap.Reconcile.{
  unshallow_best_effort, merge_or_abort, merge_remote_task_branch, merge_base, reconcile_fetched,
  reconcile_with_base, fast_forward, local_in_remote, is_ancestor, merge, merge_abort, set_head,
  fetch_origin,
}
use tatara_claude_code_wrapp.Bootstrap.Branch.{
  Arm, returns, goes_on, create_branch, keep_local, checkout, publish, unshallow, fetch_branch,
  take_remote, adopt_unshallowed, adopt_remote, join_branches, local_probe, remote_probe, Params,
  Checkout, finish, probe_local,
}

-- The commands of git, other than merges, that drop nothing from a checkout or from `origin`: they look,
-- fetch without a refspec that forces, make the task branch `b` or go to it, record the head of
-- `origin`, or push `b` with no flag that forces.
pub data Adds (b : String) : List String → Type 0 where
  looks : (args : List String) → Adds b ("rev-parse" ∷ args)
  asks : (args : List String) → Adds b ("ls-remote" ∷ args)
  compares : (args : List String) → Adds b ("merge-base" ∷ args)
  fetches : Adds b ("fetch" ∷ "origin" ∷ [])
  fetches_branch : Adds b ("fetch" ∷ "origin" ∷ b ∷ [])
  deepens : Adds b ("fetch" ∷ "--unshallow" ∷ "origin" ∷ [])
  switches : Adds b ("checkout" ∷ b ∷ [])
  creates : Adds b ("checkout" ∷ "-b" ∷ b ∷ [])
  records_head : Adds b ("remote" ∷ "set-head" ∷ "origin" ∷ "--auto" ∷ [])
  publishes : Adds b ("push" ∷ "--no-verify" ∷ "-u" ∷ "origin" ∷ b ∷ [])

-- What each command other than the reset of the task branch keeps.
pub record IsKept (git : Git) (dir b : String) (Q : Trace → Type 0) : Type 0 where
  pub ran : (args : List String) (t : Trace) → Adds b args → Q t → Q (after dir args t)
  pub advanced : (t : Trace) → Q t → Q (after dir fast_forward t)
  pub merged :
      (msg ref : String) (t : Trace)
      → succeeds git dir (merge msg ref) t ≡ true
      → Q t
      → Q (after dir (merge msg ref) t)
  pub undone :
      (msg ref : String) (t : Trace) → Q t → Q (after dir merge_abort (after dir (merge msg ref) t))

module _ (git : Git) (dir b : String) (Q : Trace → Type 0) (k : IsKept git dir b Q) where
  unshallow_kept : (full : Bool) (t : Trace) → Q t → Q (unshallow_best_effort dir full t)
  unfolding unshallow_best_effort
  unshallow_kept full t h = if_holds Q full t _ (λ e. h) (λ e. k.ran _ t deepens h)

  merge_or_abort_kept :
      (msg ref merged conflict : String) (t : Trace)
      → Q t
      → Q (merge_or_abort git dir msg ref merged conflict t).0
  unfolding merge_or_abort
  merge_or_abort_kept msg ref merged conflict t h =
      if_holds (λ (r : Trace × String). Q r.0) (succeeds git dir (merge msg ref) t) _ _
        (λ e. k.merged msg ref t e h) (λ e. k.undone msg ref t h)

  merge_remote_kept : (t : Trace) → Q t → Q (merge_remote_task_branch git dir b t).0
  unfolding merge_remote_task_branch
  merge_remote_kept t h =
      let t1 = after dir (is_ancestor "FETCH_HEAD") t in
      let h1 : Q t1 = k.ran (is_ancestor "FETCH_HEAD") t (compares _) h in
      let h2 = k.ran local_in_remote t1 (compares _) h1 in
      if_holds (λ (r : Trace × String). Q r.0) (succeeds git dir (is_ancestor "FETCH_HEAD") t) _ _
        (λ e. h1)
        (λ e.
          if_holds (λ (r : Trace × String). Q r.0) (succeeds git dir local_in_remote t1) _ _
            (λ f. k.advanced _ h2) (λ f. merge_or_abort_kept _ _ _ _ _ h2))

  merge_base_kept : (ref : String) (t : Trace) → Q t → Q (merge_base git dir b ref t).0
  unfolding merge_base
  merge_base_kept ref t h =
      let h1 = k.ran (is_ancestor ref) t (compares _) h in
      if_holds (λ (r : Trace × String). Q r.0) (succeeds git dir (is_ancestor ref) t) _ _ (λ e. h1)
        (λ e. merge_or_abort_kept _ _ _ _ _ h1)

  fetched_kept : (base : String) (t : Trace) → Q t → Q (reconcile_fetched git dir b base t).0
  unfolding reconcile_fetched
  fetched_kept base t h =
      let h1 = k.ran set_head t records_head h in
      if_holds (λ (r : Trace × String). Q r.0) (is_empty base) _ _
        (λ e.
          if_holds (λ (r : Trace × String). Q r.0) (succeeds git dir set_head t) _ _
            (λ f. merge_base_kept _ _ h1) (λ f. h1))
        (λ e. merge_base_kept _ t h)

  reconcile_kept : (base : String) (t : Trace) → Q t → Q (reconcile_with_base git dir b base t).0
  unfolding reconcile_with_base
  reconcile_kept base t h =
      let h1 = k.ran fetch_origin t fetches h in
      if_holds (λ (r : Trace × String × Option String). Q r.0) (succeeds git dir fetch_origin t) _ _
        (λ e. fetched_kept base _ h1) (λ e. h1)

  pub create_kept : (t : Trace) → Q t → Q (create_branch git dir b t).0
  unfolding create_branch
  create_kept t h = k.ran _ t creates h

  pub keep_local_kept :
      (full reconcile : Bool) (t : Trace) → Q t → Q (keep_local git dir b full reconcile t).0
  unfolding keep_local
  keep_local_kept full reconcile t h =
      let h1 = k.ran (checkout b) t switches h in
      let h2 = unshallow_kept full _ h1 in
      if_holds (λ (r : Trace × Arm). Q r.0) (not (succeeds git dir (checkout b) t)) _ _ (λ e. h1)
        (λ e. if_holds Q reconcile _ _ (λ f. k.ran (publish b) _ publishes h2) (λ f. h2))

  pub join_kept : (full : Bool) (t : Trace) → Q t → Q (join_branches git dir b full t).0
  unfolding join_branches
  join_kept full t h =
      let t1 = unshallow_best_effort dir full (after dir (checkout b) t) in
      let h1 = k.ran (checkout b) t switches h in
      let h2 = k.ran (fetch_branch b) t1 fetches_branch (unshallow_kept full _ h1) in
      if_holds (λ (r : Trace × Arm). Q r.0) (not (succeeds git dir (checkout b) t)) _ _ (λ e. h1)
        (λ e.
          if_holds (λ (r : Trace × Arm). Q r.0) (succeeds git dir (fetch_branch b) t1) _ _
            (λ f. merge_remote_kept _ h2) (λ f. h2))

  module _ (takes : (t : Trace) → Q t → Q (after dir (take_remote b) t)) where
    adopt_unshallowed_kept : (t : Trace) → Q t → Q (adopt_unshallowed git dir b t).0
    unfolding adopt_unshallowed
    adopt_unshallowed_kept t h =
        let h1 = k.ran (fetch_branch b) t fetches_branch h in
        if_holds (λ (r : Trace × Arm). Q r.0) (not (succeeds git dir (fetch_branch b) t)) _ _
          (λ e. h1)
          (λ e.
            if_holds (λ (r : Trace × Arm). Q r.0) (succeeds git dir (take_remote b) _) _ _
              (λ f. takes _ h1) (λ f. takes _ h1))

    pub adopt_kept : (full : Bool) (t : Trace) → Q t → Q (adopt_remote git dir b full t).0
    unfolding adopt_remote
    adopt_kept full t h =
        let h1 = k.ran unshallow t deepens h in
        if_holds (λ (r : Trace × Arm). Q r.0) full _ _ (λ e. adopt_unshallowed_kept t h)
          (λ e.
            if_holds (λ (r : Trace × Arm). Q r.0) (succeeds git dir unshallow t) _ _
              (λ f. adopt_unshallowed_kept _ h1) (λ f. h1))

module _ (git : Git) (dir : String) (p : Params) (Q : Trace → Type 0)
    (k : IsKept git dir p.task_branch Q) where
  pub finish_kept : (r : Trace × Arm) → Q r.0 → Q (finish git dir p r).trace
  unfolding finish
  finish_kept (t, returns e) h = h
  finish_kept (t, goes_on result) h =
      if_holds (λ (c : Checkout). Q c.trace) p.reconcile _ _
        (λ e. reconcile_kept git dir p.task_branch Q k p.base_branch t h) (λ e. h)

  pub probed_kept :
      (t : Trace) → Q t → Q (after dir (remote_probe p.task_branch) (probe_local git dir p t).0)
  probed_kept t h = k.ran (remote_probe p.task_branch) _ (asks _) (
      if_holds (λ (r : Trace × Bool). Q r.0) p.persistent _ _
        (λ e. k.ran (local_probe p.task_branch) t (looks _) h) (λ e. h))
