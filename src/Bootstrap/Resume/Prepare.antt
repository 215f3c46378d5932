-- ===== src/Bootstrap/Resume/Prepare.antt =====
-- internal/bootstrap/resume.go: the phases of `PrepareWorkspace`.
use tatara_claude_code_wrapp.Common.{
  not, Bool, true, false, List, [], ◌∷◌, ◌++◌, Option, none, some, String, if◌then◌else◌,
}
use tatara_claude_code_wrapp.Bootstrap.World.{
  World, Repair, run, works, record_recovery, clear_stale_locks,
}
use tatara_claude_code_wrapp.Bootstrap.Resume.{is_usable_repo, abort_in_progress}
use tatara_claude_code_wrapp.Bootstrap.Resume.Rescue.{
  Rescue, nothing, rescue_unabortable, rescue_dirty, tree_probe, staged_probe, wipe,
}

-- The two probes of the tree, the second one only if the first finds nothing.
unfoldable pub look_at_tree : World → String → Repair → Repair × Bool
unfolding run
look_at_tree w dest s =
    let s1 = run dest tree_probe s in
    if works w dest tree_probe s
    then (run dest staged_probe s1, not (works w dest staged_probe s1))
    else (s1, true)

abbrev pub reset_hard : List String
reset_hard = "reset" ∷ "--hard" ∷ "HEAD" ∷ []

unfoldable pub after_failed_abort : World → String → Repair × Bool → Rescue
unfolding rescue_unabortable run record_recovery
after_failed_abort w dest (s, dirty) =
    if dirty
    then rescue_unabortable w dest s
    else nothing (record_recovery w "reset after abort" (run dest reset_hard s))

abbrev pub head_probe : List String
head_probe = "symbolic-ref" ∷ "-q" ∷ "HEAD" ∷ []

unfoldable pub look_at_head : World → String → Repair → Repair × Bool
unfolding run record_recovery
look_at_head w dest s =
    let s1 = run dest head_probe s in
    if works w dest head_probe s then (s1, false) else (record_recovery w "detached head" s1, true)

unfoldable pub after_aborts : World → String → Repair × Bool → Rescue
unfolding rescue_dirty look_at_head
after_aborts w dest (s, dirty) =
    let seen = look_at_head w dest s in
    if dirty then rescue_dirty w dest seen.1 seen.0 else nothing seen.0

unfoldable pub rescue_working_tree : World → String → Bool → Repair → Rescue
unfolding after_failed_abort after_aborts look_at_tree
rescue_working_tree w dest abort_failed s =
    let seen = look_at_tree w dest s in
    if abort_failed then after_failed_abort w dest seen else after_aborts w dest seen

pub record WorkspacePrep : Type 0 where
  pub wiped : Bool
  pub notes : List String
  pub required : List String

-- `PrepareWorkspace`'s results, with the state that it leaves.
pub record Prepared : Type 0 where
  pub state : Repair
  pub prep : WorkspacePrep
  pub error : Option String

abbrev pub untouched : WorkspacePrep
untouched = record { wiped = false; notes = []; required = [] }

-- Phase A's removal.
abbrev pub unusable : Repair × Option String → Prepared
unusable (s, none) = record { state = s; prep = record untouched { wiped = true }; error = none }
unusable (s, some e) = record { state = s; prep = untouched; error = some e }

-- What is returned once phase C has given its notes, and phase D is done.
abbrev pub reported : List String → Rescue → Prepared
reported notes r = elim r.error [
  | some e ↦ record { state = r.state; prep = record untouched { notes = notes }; error = some e }
  | none ↦ record {
    state = r.state;
    prep =
        if r.wiped
        then record untouched { wiped = true }
        else record { wiped = false; notes = notes ++ r.notes; required = r.required };
    error = none;
  }
]

unfoldable pub repair : World → String → Repair → Prepared
unfolding clear_stale_locks abort_in_progress rescue_working_tree
repair w dest s =
    let a = abort_in_progress w dest (clear_stale_locks w dest s) in
    reported a.notes (rescue_working_tree w dest a.failed a.state)

unfoldable pub prepare_workspace : World → String → Repair → Prepared
unfolding is_usable_repo wipe repair
prepare_workspace w dest s =
    let probed = is_usable_repo w dest s in
    if not (w.has_git_dir dest)
    then record { state = s; prep = untouched; error = none }
    else if probed.1
    then repair w dest probed.0
    else unusable (wipe w dest "remove unusable checkout " "invalid git" probed.0)
