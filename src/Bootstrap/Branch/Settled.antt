-- ===== src/Bootstrap/Branch/Settled.antt =====
-- internal/bootstrap/bootstrap.go: no merge is left in the middle.
use tatara_claude_code_wrapp.Common.{
  ◌≡◌, refl, Bool, true, false, if_holds, String, str_eq, List, [], ◌∷◌,
}
use tatara_claude_code_wrapp.Bootstrap.Git.{Trace, Git, after, succeeds}
use tatara_claude_code_wrapp.Bootstrap.Branch.{
  Params, Arm, take_remote, remote_probe, arm, probe_local, checkout_task_branch,
}
use tatara_claude_code_wrapp.Bootstrap.Branch.Steps.{
  Adds, looks, asks, compares, fetches, fetches_branch, deepens, switches, creates, records_head,
  publishes, IsKept, create_kept, adopt_kept, join_kept, keep_local_kept, finish_kept, probed_kept,
}

-- Any command of `git merge`.
abbrev pub is_merge : List String → Bool
is_merge [] = false
is_merge (verb ∷ rest) = str_eq verb "merge"

-- Every merge that was run from `start` on is one that makes a commit, and succeeded or was aborted by
-- the next command, or is a fast-forward, which git carries out or refuses but never leaves in the
-- middle.
pub data Settled (git : Git) (dir : String) (start : Trace) : Trace → Type 0 where
  begun : Settled git dir start start
  other :
      {t : Trace} (args : List String)
      → is_merge args ≡ false
      → Settled git dir start t
      → Settled git dir start (after dir args t)
  advanced :
      {t : Trace}
      → Settled git dir start t
      → Settled git dir start (after dir ("merge" ∷ "--ff-only" ∷ "FETCH_HEAD" ∷ []) t)
  merged :
      {t : Trace} (msg ref : String)
      → succeeds git dir ("merge" ∷ "-m" ∷ msg ∷ ref ∷ []) t ≡ true
      → Settled git dir start t
      → Settled git dir start (after dir ("merge" ∷ "-m" ∷ msg ∷ ref ∷ []) t)
  aborted :
      {t : Trace} (msg ref : String)
      → Settled git dir start t
      → Settled git dir start
          (after dir ("merge" ∷ "--abort" ∷ []) (after dir ("merge" ∷ "-m" ∷ msg ∷ ref ∷ []) t))

no_merge : (b : String) (args : List String) → Adds b args → is_merge args ≡ false
no_merge b _ (looks args) = refl
no_merge b _ (asks args) = refl
no_merge b _ (compares args) = refl
no_merge b _ fetches = refl
no_merge b _ fetches_branch = refl
no_merge b _ deepens = refl
no_merge b _ switches = refl
no_merge b _ creates = refl
no_merge b _ records_head = refl
no_merge b _ publishes = refl

Settled-IsKept :
    (git : Git) (dir b : String) (start : Trace) → IsKept git dir b (Settled git dir start)
Settled-IsKept git dir b start = record {
  ran = λ args t d h. other args (no_merge b args d) h;
  advanced = λ t h. advanced h;
  merged = λ msg ref t e h. merged msg ref e h;
  undone = λ msg ref t h. aborted msg ref h;
}

-- Whatever git answers, and whichever branches exist, each merge of `checkoutTaskBranch` that makes a
-- commit succeeds or is aborted by the very next command, and any other merge is a fast-forward, which
-- is all or nothing.
pub checkout-Settled :
    (git : Git) (dir : String) (p : Params) (t : Trace)
    → Settled git dir t (checkout_task_branch git dir p t).trace
unfolding checkout_task_branch arm
checkout-Settled git dir p t =
    let Q = Settled git dir t in
    let b = p.task_branch in
    let k = Settled-IsKept git dir b t in
    let probed = probe_local git dir p t in
    let h = probed_kept git dir p Q k t begun in
    let remote = succeeds git dir (remote_probe b) probed.0 in
    finish_kept git dir p Q k _ (
      if_holds (λ (r : Trace × Arm). Q r.0) probed.1 _ _
        (λ e.
          if_holds (λ (r : Trace × Arm). Q r.0) remote _ _
            (λ f. join_kept git dir b Q k p.full_clone _ h)
            (λ f. keep_local_kept git dir b Q k p.full_clone p.reconcile _ h))
        (λ e.
          if_holds (λ (r : Trace × Arm). Q r.0) remote _ _
            (λ f. adopt_kept git dir b Q k (λ s q. other (take_remote b) refl q) p.full_clone _ h)
            (λ f. create_kept git dir b Q k _ h)))
