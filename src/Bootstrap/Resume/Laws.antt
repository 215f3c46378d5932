-- ===== src/Bootstrap/Resume/Laws.antt =====
-- internal/bootstrap/resume.go: `PrepareWorkspace` from its first command to the end.
use tatara_claude_code_wrapp.Common.{
  ◌≡◌, refl, Bool, true, false, not, List, [], ◌∷◌, Option, none, some, String, is_empty, All,
  if_holds, Option-cases, inl, inr,
}
use tatara_claude_code_wrapp.Bootstrap.World.{
  World, Repair, run, works, record_recovery, clear_stale_locks,
}
use tatara_claude_code_wrapp.Bootstrap.Resume.{
  inside_probe, git_dir_probe, is_usable_repo, abort_in_progress,
}
use tatara_claude_code_wrapp.Bootstrap.Resume.Rescue.{
  first_accepted, new_branch, name_branch, rescue_branch_names, numbered_names, rescue_branch,
  abort_rescue_branch, claim_rescue_branch, Rescue, wipe, wipe_unrecoverable, add_all, staged_probe,
  tree_probe, commit, go_back, preserved, commit_rescue, rescue_unabortable, rescued, commit_work,
  rescue_dirty, abort_rescue_message, rescue_commit_message,
}
use tatara_claude_code_wrapp.Bootstrap.Resume.Prepare.{
  look_at_tree, reset_hard, after_failed_abort, head_probe, look_at_head, after_aborts,
  rescue_working_tree, Prepared, unusable, reported, repair, prepare_workspace,
}
use tatara_claude_code_wrapp.Bootstrap.Resume.Steps.{
  Keeps, looks, compares, reads_head, stages, commits, branches_off, names_branch, goes_back,
  IsHeld, locks_held, unstage_held, aborts_held, names_held,
}

-- What holds at the end, if `P` holds until a checkout is reset or removed.
pub record Ends (w : World) (dest : String) (P F : Repair → Type 0) : Type 0 where
  pub held : IsHeld w dest P
  pub stays : (s : Repair) → P s → F s
  pub resets :
      (s : Repair)
      → P s
      → works w dest tree_probe s ≡ true
      → works w dest staged_probe (run dest tree_probe s) ≡ true
      → F (
          record_recovery w "reset after abort"
            (run dest reset_hard (run dest staged_probe (run dest tree_probe s))))
  pub wipes :
      (args : List String) (what kind : String) (s : Repair)
      → Keeps args
      → works w dest args s ≡ false
      → P s
      → F (wipe w dest what kind (run dest args s)).0

module _ (w : World) (dest : String) (P F : Repair → Type 0) (x : Ends w dest P F) where
  module _ (args : String → List String) (harmless : (n : String) → Keeps (args n)) where
    abbrev IfNameless : String → String → Repair × String → Type 0
    IfNameless what kind r = is_empty r.1 ≡ true → F (wipe w dest what kind r.0).0

    taken :
        (what kind name : String) (s : Repair)
        → is_empty name ≡ false
        → IfNameless what kind (s, name)
    taken what kind name s named missing = absurd cc

    -- A name is missing only if the last one was refused.
    refused_wiped :
        (what kind name : String) (names : List String) (s : Repair)
        → All (λ n. is_empty n ≡ false) (name ∷ names)
        → P s
        → IfNameless what kind (first_accepted w dest args (name ∷ names) s)
    unfolding first_accepted
    refused_wiped what kind name [] s (n, ns) h =
        if_holds (IfNameless what kind) (works w dest (args name) s) _ _
          (λ e. taken what kind name _ n)
          (λ e missing. x.wipes (args name) what kind s (harmless name) e h)
    refused_wiped what kind name (next ∷ names) s (n, ns) h =
        if_holds (IfNameless what kind) (works w dest (args name) s) _ _
          (λ e. taken what kind name _ n)
          (λ e.
            refused_wiped what kind next names _ ns
              (x.held.runs dest (args name) s (harmless name) h))

  preserved_final : (branch : String) (s : Repair) → P s → F (preserved w dest branch s).state
  preserved_final branch s h =
      x.stays _ (x.held.recovers w _ _ (x.held.runs dest go_back s goes_back h))

  commit_rescue_final :
      (branch : String) (s : Repair) → P s → F (commit_rescue w dest branch s).state
  unfolding commit_rescue wipe_unrecoverable
  commit_rescue_final branch s h =
      let s1 = run dest staged_probe s in
      let c = commit abort_rescue_message in
      let h1 : P s1 = x.held.runs dest staged_probe s (compares _) h in
      if_holds (λ (r : Rescue). F r.state) (works w dest staged_probe s) _ _
        (λ e. x.stays _ (x.held.runs dest go_back s1 goes_back h1))
        (λ e.
          if_holds (λ (r : Rescue). F r.state) (works w dest c s1) _ _
            (λ f. preserved_final branch _ (x.held.runs dest c s1 (commits _) h1))
            (λ f. x.wipes c _ _ s1 (commits _) f h1))

  unabortable_final : (s : Repair) → P s → F (rescue_unabortable w dest s).state
  unfolding rescue_unabortable wipe_unrecoverable
  unabortable_final s h =
      let claimed = claim_rescue_branch w dest abort_rescue_branch s in
      let h1 : P claimed.0 =
        names_held P w dest x.held new_branch (rescue_branch_names abort_rescue_branch) s
          branches_off h in
      if_holds (λ (r : Rescue). F r.state) (is_empty claimed.1) _ _
        (λ e.
          refused_wiped new_branch branches_off _ _ abort_rescue_branch
            (numbered_names abort_rescue_branch) s
            (refl, (refl, (refl, (refl, (refl, (refl, (refl, (refl, (refl, tt))))))))) h e)
        (λ e.
          if_holds (λ (r : Rescue). F r.state) (works w dest add_all claimed.0) _ _
            (λ f.
              commit_rescue_final claimed.1 _
                (unstage_held P w dest x.held _ (x.held.runs dest add_all claimed.0 stages h1)))
            (λ f. x.wipes add_all _ _ claimed.0 stages f h1))

  rescued_held : (detached : Bool) (s : Repair) → P s → P (rescued w dest detached s).state
  unfolding rescued
  rescued_held detached s h = x.held.recovers w _ _ (
      if_holds (λ (r : Repair × String). P r.0) detached _ _
        (λ e.
          names_held P w dest x.held name_branch (rescue_branch_names rescue_branch) s names_branch
            h)
        (λ e. h))

  commit_work_held : (detached : Bool) (s : Repair) → P s → P (commit_work w dest detached s).state
  unfolding commit_work
  commit_work_held detached s h =
      let c = commit rescue_commit_message in
      let s1 = run dest staged_probe s in
      let h1 = x.held.runs dest staged_probe s (compares _) h in
      let h2 = x.held.runs dest c s1 (commits _) h1 in
      if_holds (λ (r : Rescue). P r.state) (works w dest staged_probe s) _ _ (λ e. h1)
        (λ e.
          if_holds (λ (r : Rescue). P r.state) (works w dest c s1) _ _
            (λ f. rescued_held detached _ h2) (λ f. h2))

  dirty_held : (detached : Bool) (s : Repair) → P s → P (rescue_dirty w dest detached s).state
  unfolding rescue_dirty
  dirty_held detached s h =
      let h1 = x.held.runs dest add_all s stages h in
      if_holds (λ (r : Rescue). P r.state) (works w dest add_all s) _ _
        (λ e. commit_work_held detached _ (unstage_held P w dest x.held _ h1)) (λ e. h1)

  head_held : (s : Repair) → P s → P (look_at_head w dest s).0
  unfolding look_at_head
  head_held s h =
      let h1 = x.held.runs dest head_probe s reads_head h in
      if_holds (λ (r : Repair × Bool). P r.0) (works w dest head_probe s) _ _ (λ e. h1)
        (λ e. x.held.recovers w _ _ h1)

  after_aborts_final : (r : Repair × Bool) → P r.0 → F (after_aborts w dest r).state
  unfolding after_aborts
  after_aborts_final (s, dirty) h =
      let h1 = head_held s h in
      if_holds (λ (r : Rescue). F r.state) dirty _ _ (λ e. x.stays _ (dirty_held _ _ h1))
        (λ e. x.stays _ h1)

  clean_or_dirty :
      (s : Repair) (b : Bool)
      → P s
      → works w dest tree_probe s ≡ true
      → works w dest staged_probe (run dest tree_probe s) ≡ b
      → F (after_failed_abort w dest (run dest staged_probe (run dest tree_probe s), not b)).state
  unfolding after_failed_abort
  clean_or_dirty s true h e f = x.resets s h e f
  clean_or_dirty s false h e f =
      unabortable_final _ (
        x.held.runs dest staged_probe _ (compares _) (x.held.runs dest tree_probe s (compares _) h))

  failed_abort_final :
      (s : Repair) → P s → F (after_failed_abort w dest (look_at_tree w dest s)).state
  unfolding after_failed_abort look_at_tree
  failed_abort_final s h =
      let s1 = run dest tree_probe s in
      if_holds (λ (r : Repair × Bool). F (after_failed_abort w dest r).state)
        (works w dest tree_probe s) _ _
        (λ e. clean_or_dirty s (works w dest staged_probe s1) h e refl)
        (λ e. unabortable_final s1 (x.held.runs dest tree_probe s (compares _) h))

  tree_held : (s : Repair) → P s → P (look_at_tree w dest s).0
  unfolding look_at_tree
  tree_held s h =
      let s1 = run dest tree_probe s in
      let h1 : P s1 = x.held.runs dest tree_probe s (compares _) h in
      if_holds (λ (r : Repair × Bool). P r.0) (works w dest tree_probe s) _ _
        (λ e. x.held.runs dest staged_probe s1 (compares _) h1) (λ e. h1)

  tree_final : (failed : Bool) (s : Repair) → P s → F (rescue_working_tree w dest failed s).state
  unfolding rescue_working_tree
  tree_final failed s h =
      if_holds (λ (r : Rescue). F r.state) failed _ _ (λ e. failed_abort_final s h)
        (λ e. after_aborts_final (look_at_tree w dest s) (tree_held s h))

  reported_final : (notes : List String) (r : Rescue) → F r.state → F (reported notes r).state
  reported_final notes r h = elim (Option-cases r.error) [
    | inl clear ↦ rw clear h
    | inr (e, error) ↦ rw error h
  ]

  unusable_final : (r : Repair × Option String) → F r.0 → F (unusable r).state
  unusable_final (s, none) h = h
  unusable_final (s, some e) h = h

  abbrev IfRejected : Repair × Bool → Type 0
  IfRejected r = r.1 ≡ false → F (wipe w dest "remove unusable checkout " "invalid git" r.0).0

  unusable_wiped : (s : Repair) → P s → IfRejected (is_usable_repo w dest s)
  unfolding is_usable_repo
  unusable_wiped s h =
      let s1 = run dest inside_probe s in
      let h1 : P s1 = x.held.runs dest inside_probe s (looks _) h in
      if_holds IfRejected (works w dest inside_probe s) _ _
        (λ e f. x.wipes git_dir_probe _ _ s1 (looks _) f h1)
        (λ e f. x.wipes inside_probe _ _ s (looks _) e h)

  usable_held : (s : Repair) → P s → P (is_usable_repo w dest s).0
  unfolding is_usable_repo
  usable_held s h =
      let s1 = run dest inside_probe s in
      let h1 : P s1 = x.held.runs dest inside_probe s (looks _) h in
      if_holds (λ (r : Repair × Bool). P r.0) (works w dest inside_probe s) _ _
        (λ e. x.held.runs dest git_dir_probe s1 (looks _) h1) (λ e. h1)

  repair_final : (s : Repair) → P s → F (repair w dest s).state
  unfolding repair
  repair_final s h =
      let s1 = clear_stale_locks w dest s in
      let a = abort_in_progress w dest s1 in
      let h1 : P a.state = aborts_held P w dest x.held s1 (locks_held P w dest x.held s h) in
      reported_final a.notes (rescue_working_tree w dest a.failed a.state)
        (tree_final a.failed a.state h1)

  pub prepare_final : (s : Repair) → P s → F (prepare_workspace w dest s).state
  unfolding prepare_workspace
  prepare_final s h =
      let probed = is_usable_repo w dest s in
      if_holds (λ (p : Prepared). F p.state) (not (w.has_git_dir dest)) _ _ (λ e. x.stays s h)
        (λ e.
          if_holds (λ (p : Prepared). F p.state) probed.1 _ _
            (λ f. repair_final probed.0 (usable_held s h))
            (λ f. unusable_final _ (unusable_wiped s h f)))
