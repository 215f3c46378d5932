-- ===== src/Bootstrap/Resume.antt =====
-- internal/bootstrap/resume.go: `PrepareWorkspace`, which makes an inherited checkout safe to use.
pub mod Rescue
pub mod Prepare
pub mod Steps
pub mod Laws
pub mod Careful
mod Examples
use tatara_claude_code_wrapp.Common.{
  ◌&&◌, ◌||◌, not, Bool, true, false, List, [], ◌∷◌, ◌++◌, map, Option, none, some, String,
  if◌then◌else◌, is_empty, ◌+++◌,
}
use tatara_claude_code_wrapp.Bootstrap.Git.{Trace, Git, command, after, succeeds, is_nil}
use tatara_claude_code_wrapp.Bootstrap.World.{
  World, Repair, run, works, record_recovery, clear_stale_locks, unstage_oversized_blobs, head_sha,
  short_sha,
}

abbrev pub inside_probe : List String
inside_probe = "rev-parse" ∷ "--is-inside-work-tree" ∷ []

abbrev pub git_dir_probe : List String
git_dir_probe = "rev-parse" ∷ "--git-dir" ∷ []

-- Runs up to the first of the two that fails.
unfoldable pub is_usable_repo : World → String → Repair → Repair × Bool
unfolding run
is_usable_repo w dest s =
    let s1 = run dest inside_probe s in
    if works w dest inside_probe s
    then (run dest git_dir_probe s1, works w dest git_dir_probe s1)
    else (s1, false)

pub record InProgressOp : Type 0 where
  pub marker : String
  pub kind : String
  pub abort : List String
  pub fallback : Option (List String)

abbrev pub in_progress_op : String → String → List String → Option (List String) → InProgressOp
in_progress_op marker kind abort fallback = record {
  marker = marker;
  kind = kind;
  abort = abort;
  fallback = fallback;
}

abbrev pub in_progress_ops : List InProgressOp
in_progress_ops =
    in_progress_op "MERGE_HEAD" "merge" ("merge" ∷ "--abort" ∷ []) (some ("reset" ∷ "--merge" ∷ []))
    ∷ in_progress_op "rebase-merge" "rebase" ("rebase" ∷ "--abort" ∷ []) none
    ∷ in_progress_op "rebase-apply" "rebase" ("rebase" ∷ "--abort" ∷ [])
        (some ("am" ∷ "--abort" ∷ []))
    ∷ in_progress_op "CHERRY_PICK_HEAD" "cherry pick" ("cherry-pick" ∷ "--abort" ∷ []) none
    ∷ in_progress_op "REVERT_HEAD" "revert" ("revert" ∷ "--abort" ∷ []) none
    ∷ in_progress_op "BISECT_LOG" "bisect" ("bisect" ∷ "reset" ∷ []) none
    ∷ []

pub record Aborted : Type 0 where
  pub state : Repair
  pub notes : List String
  pub failed : Bool

-- The fallback, run where the abort failed.
abbrev pub fall_back : World → String → Option (List String) → Repair → Repair × Bool
fall_back w dest none s = (s, false)
fall_back w dest (some args) s = (run dest args s, works w dest args s)

unfoldable pub undo : World → String → InProgressOp → Repair → Repair × Bool
unfolding run
undo w dest op s =
    if works w dest op.abort s
    then (run dest op.abort s, true)
    else fall_back w dest op.fallback (run dest op.abort s)

abbrev pub abort_note : String → String
abort_note kind =
    "an interrupted " +++ kind
    +++ " from the previous session was aborted; the working tree is back at the branch tip, and whatever that "
    +++ kind +++ " was meant to achieve has NOT been applied"

abbrev pub aborted_op : World → String → Aborted → Repair × Bool → Aborted
aborted_op w kind a (s, true) = record {
  state = record_recovery w ("aborted " +++ kind) s;
  notes = a.notes ++ abort_note kind ∷ [];
  failed = a.failed;
}
aborted_op w kind a (s, false) = record { state = s; notes = a.notes; failed = true }

unfoldable pub abort_op : World → String → InProgressOp → Aborted → Aborted
unfolding undo record_recovery
abort_op w dest op a =
    if w.has_marker a.state.trace dest op.marker
    then aborted_op w op.kind a (undo w dest op a.state)
    else a

unfoldable pub abort_ops : World → String → List InProgressOp → Aborted → Aborted
unfolding abort_op
abort_ops w dest [] a = a
abort_ops w dest (op ∷ ops) a = abort_ops w dest ops (abort_op w dest op a)

unfoldable pub abort_in_progress : World → String → Repair → Aborted
unfolding abort_ops
abort_in_progress w dest s =
    abort_ops w dest in_progress_ops (record { state = s; notes = []; failed = false })
