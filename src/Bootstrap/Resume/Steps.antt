-- ===== src/Bootstrap/Resume/Steps.antt =====
-- internal/bootstrap/resume.go: what the commands of `PrepareWorkspace` keep, the whole of it keeps.
use tatara_claude_code_wrapp.Common.{
  ◌≡◌, ℕ, Bool, true, false, List, [], ◌∷◌, Option, none, some, String, All, if_holds, leb,
}
use tatara_claude_code_wrapp.Bootstrap.World.{
  World, Repair, WorkFile, RefEntry, run, works, record_recovery, record_lock_cleared,
  clear_stale_locks, clear_top_locks, clear_ref_locks, is_stale, git_lock_files, unstage,
  unstage_file, unstage_files, unstage_oversized_blobs, count_oversized, max_staged_blob_bytes,
}
use tatara_claude_code_wrapp.Bootstrap.Resume.{
  InProgressOp, in_progress_ops, Aborted, fall_back, undo, aborted_op, abort_op, abort_ops,
  abort_in_progress,
}
use tatara_claude_code_wrapp.Bootstrap.Resume.Rescue.{first_accepted}

-- The commands of git that keep every commit, and every change of the working tree: they look, stage,
-- unstage a path, commit, make a branch or go to one.
pub data Keeps : List String → Type 0 where
  looks : (args : List String) → Keeps ("rev-parse" ∷ args)
  compares : (args : List String) → Keeps ("diff" ∷ args)
  reads_head : Keeps ("symbolic-ref" ∷ "-q" ∷ "HEAD" ∷ [])
  stages : Keeps ("add" ∷ "-A" ∷ [])
  unstages : (path : String) → Keeps ("reset" ∷ "-q" ∷ "--" ∷ path ∷ [])
  commits : (message : String) → Keeps ("commit" ∷ "--no-verify" ∷ "-m" ∷ message ∷ [])
  branches_off : (name : String) → Keeps ("checkout" ∷ "-b" ∷ name ∷ [])
  names_branch : (name : String) → Keeps ("branch" ∷ name ∷ [])
  goes_back : Keeps ("checkout" ∷ "-" ∷ [])

-- The command that aborts the operation whose marker is there.
pub data Aborts : String → List String → Type 0 where
  merge : Aborts "MERGE_HEAD" ("merge" ∷ "--abort" ∷ [])
  rebase : Aborts "rebase-merge" ("rebase" ∷ "--abort" ∷ [])
  apply : Aborts "rebase-apply" ("rebase" ∷ "--abort" ∷ [])
  cherry_pick : Aborts "CHERRY_PICK_HEAD" ("cherry-pick" ∷ "--abort" ∷ [])
  revert : Aborts "REVERT_HEAD" ("revert" ∷ "--abort" ∷ [])
  bisect : Aborts "BISECT_LOG" ("bisect" ∷ "reset" ∷ [])

-- A command that failed to abort it, and the one that is tried next.
pub data FallsBack : String → List String → List String → Type 0 where
  merge : FallsBack "MERGE_HEAD" ("merge" ∷ "--abort" ∷ []) ("reset" ∷ "--merge" ∷ [])
  apply : FallsBack "rebase-apply" ("rebase" ∷ "--abort" ∷ []) ("am" ∷ "--abort" ∷ [])

-- What a command, and each of the counters, keeps.
pub record IsHeld (w : World) (dest : String) (P : Repair → Type 0) : Type 0 where
  pub runs :
      (dir : String) (args : List String) (s : Repair) → Keeps args → P s → P (run dir args s)
  pub aborts :
      (marker : String) (args : List String) (s : Repair)
      → Aborts marker args
      → w.has_marker s.trace dest marker ≡ true
      → P s
      → P (run dest args s)
  pub falls_back :
      (marker : String) (args next : List String) (s : Repair)
      → FallsBack marker args next
      → w.has_marker s.trace dest marker ≡ true
      → works w dest args s ≡ false
      → P s
      → P (run dest next (run dest args s))
  pub recovers : (v : World) (kind : String) (s : Repair) → P s → P (record_recovery v kind s)
  pub clears : (v : World) (label : String) (s : Repair) → P s → P (record_lock_cleared v label s)
  pub skips : (v : World) (s : Repair) → P s → P (count_oversized v s)

abbrev IsFallback : String → List String → Option (List String) → Type 0
IsFallback marker args none = Unit
IsFallback marker args (some next) = FallsBack marker args next

abbrev AreAborts : List InProgressOp → Type 0
AreAborts ops =
    All
      (λ (op : InProgressOp). Aborts op.marker op.abort × IsFallback op.marker op.abort op.fallback)
      ops

module _ (P : Repair → Type 0) (w : World) (dest : String) (k : IsHeld w dest P) where
  top_locks_held : (names : List String) (s : Repair) → P s → P (clear_top_locks w dest names s)
  unfolding clear_top_locks
  top_locks_held [] s h = h
  top_locks_held (name ∷ names) s h =
      top_locks_held names _
        (if_holds P (w.removes_lock dest name) _ s (λ e. k.clears w name s h) (λ e. h))

  ref_locks_held : (es : List RefEntry) (s : Repair) → P s → P (clear_ref_locks w dest es s)
  unfolding clear_ref_locks
  ref_locks_held [] s h = h
  ref_locks_held (e ∷ es) s h =
      ref_locks_held es _ (if_holds P (is_stale w dest e) _ s (λ q. k.clears w "refs" s h) (λ q. h))

  pub locks_held : (s : Repair) → P s → P (clear_stale_locks w dest s)
  unfolding clear_stale_locks
  locks_held s h =
      if_holds P (w.opens_root dest) _ s
        (λ e. ref_locks_held (w.refs dest) _ (top_locks_held git_lock_files s h)) (λ e. h)

  unstage_file_held :
      (size : Option ℕ) (rel : Option String) (s : Repair)
      → P s
      → P (unstage_file w dest size rel s)
  unfolding unstage_file
  unstage_file_held none rel s h = h
  unstage_file_held (some n) none s h = h
  unstage_file_held (some n) (some rel) s h =
      let h1 = k.runs dest (unstage rel) s (unstages rel) h in
      if_holds P (leb n max_staged_blob_bytes) s _ (λ e. h)
        (λ e. if_holds P (works w dest (unstage rel) s) _ _ (λ f. k.skips w _ h1) (λ f. h1))

  unstage_files_held : (fs : List WorkFile) (s : Repair) → P s → P (unstage_files w dest fs s)
  unfolding unstage_files
  unstage_files_held [] s h = h
  unstage_files_held (f ∷ fs) s h = unstage_files_held fs _ (unstage_file_held f.size f.rel s h)

  pub unstage_held : (s : Repair) → P s → P (unstage_oversized_blobs w dest s)
  unfolding unstage_oversized_blobs
  unstage_held s h = unstage_files_held (w.files s.trace dest) s h

  undo_held :
      (op : InProgressOp) (s : Repair) (o : Option (List String))
      → w.has_marker s.trace dest op.marker ≡ true
      → Aborts op.marker op.abort
      → IsFallback op.marker op.abort o
      → works w dest op.abort s ≡ false
      → P s
      → P (fall_back w dest o (run dest op.abort s)).0
  undo_held op s none there c d failed h = k.aborts op.marker op.abort s c there h
  undo_held op s (some next) there c d failed h =
      k.falls_back op.marker op.abort next s d there failed h

  undone_held :
      (op : InProgressOp) (s : Repair)
      → w.has_marker s.trace dest op.marker ≡ true
      → Aborts op.marker op.abort
      → IsFallback op.marker op.abort op.fallback
      → P s
      → P (undo w dest op s).0
  unfolding undo
  undone_held op s there c d h =
      if_holds (λ (r : Repair × Bool). P r.0) (works w dest op.abort s) _ _
        (λ e. k.aborts op.marker op.abort s c there h)
        (λ e. undo_held op s op.fallback there c d e h)

  aborted_op_held :
      (kind : String) (a : Aborted) (r : Repair × Bool) → P r.0 → P (aborted_op w kind a r).state
  aborted_op_held kind a (s, true) h = k.recovers w _ s h
  aborted_op_held kind a (s, false) h = h

  abort_ops_held :
      (ops : List InProgressOp) (a : Aborted)
      → AreAborts ops
      → P a.state
      → P (abort_ops w dest ops a).state
  unfolding abort_ops abort_op
  abort_ops_held [] a c h = h
  abort_ops_held (op ∷ ops) a ((c, d), cs) h = abort_ops_held ops _ cs (
      if_holds (λ (b : Aborted). P b.state) (w.has_marker a.state.trace dest op.marker) _ a
        (λ e. aborted_op_held op.kind a _ (undone_held op a.state e c d h)) (λ e. h))

  pub aborts_held : (s : Repair) → P s → P (abort_in_progress w dest s).state
  unfolding abort_in_progress
  aborts_held s h =
      abort_ops_held in_progress_ops _
        (
          (Aborts.merge, FallsBack.merge),
          (
            (rebase, tt),
            (
              (Aborts.apply, FallsBack.apply),
              ((cherry_pick, tt), ((revert, tt), ((bisect, tt), tt))),
            ),
          ),
        )
        h

  pub names_held :
      (args : String → List String) (names : List String) (s : Repair)
      → ((n : String) → Keeps (args n))
      → P s
      → P (first_accepted w dest args names s).0
  unfolding first_accepted
  names_held args [] s c h = h
  names_held args (name ∷ names) s c h =
      let h1 = k.runs dest (args name) s (c name) h in
      if_holds (λ (r : Repair × String). P r.0) (works w dest (args name) s) _ _ (λ e. h1)
        (λ e. names_held args names _ c h1)
