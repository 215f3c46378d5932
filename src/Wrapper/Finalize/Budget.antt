-- ===== src/Wrapper/Finalize/Budget.antt =====
-- cmd/wrapper/app.go: `maxOutcomeReprompts` over all turns of a pod.
use tatara_claude_code_wrapp.Common.{
  ℕ, zero, suc, ◌+◌, ◌≡◌, ◌≤◌, refl, List, [], ◌∷◌, Option, none, some, String, arith, is_empty,
  if_holds,
}
use tatara_claude_code_wrapp.Transcript.Outcome.{failed_critical_outcome}
use tatara_claude_code_wrapp.Wrapper.Reprompt.{retryable_outcome_failure, reprompt_directive}
use tatara_claude_code_wrapp.Wrapper.Finalize.{
  App, Stage, pushed, issues_taken, repos_taken, delivering, delivered, suppressed, rejected,
  claimed, reprompted, rolling_back, issues_held, Flight, Setup, take_issues, take_repos, look,
  claim, submit, roll_back, hold_internal_issues, hold_repo_lists, deliver, advance, section,
  stage_of,
}
use tatara_claude_code_wrapp.Wrapper.Finalize.Pod.{
  Pod, new_pod, Event, begins, moves, run_at, perform, run,
}
use tatara_claude_code_wrapp.Wrapper.Finalize.Sums.{total}

-- Whether the turn has a re-prompt of the budget.
abbrev claims : Stage → ℕ
claims (claimed tool err_text) = 1
claims (rolling_back tool) = 1
claims (reprompted tool err_text) = 1
claims issues_held = 1
claims suppressed = 1
claims _ = 0

abbrev called_back : Stage → ℕ
called_back delivered = 1
called_back _ = 0

abbrev ended : Stage → ℕ
ended delivered = 1
ended suppressed = 1
ended _ = 0

claims_of_found : (o : Option (Option (String × String))) → claims (stage_of o) ≡ 0
claims_of_found none = refl
claims_of_found (some none) = refl
claims_of_found (some (some x)) = refl

ended_split : (g : Stage) → ended g ≤ called_back g + claims g
ended_split pushed = omega arith
ended_split issues_taken = omega arith
ended_split repos_taken = omega arith
ended_split delivering = omega arith
ended_split delivered = omega arith
ended_split suppressed = omega arith
ended_split (rejected tool err_text) = omega arith
ended_split (claimed tool err_text) = omega arith
ended_split (reprompted tool err_text) = omega arith
ended_split (rolling_back tool) = omega arith
ended_split issues_held = omega arith

module _ {P : Type 0} where
  abbrev claims_in : Flight P → ℕ
  claims_in f = claims f.stage

  abbrev pub delivered_in : Flight P → ℕ
  delivered_in f = called_back f.stage

  abbrev pub ended_in : Flight P → ℕ
  ended_in f = ended f.stage

  -- `k` is what the other turns have.
  abbrev IsCounted : ℕ → App → Flight P → Type 0
  IsCounted k a f = (a.outcome_reprompts ≡ k + claims f.stage) × (a.outcome_reprompts ≤ 2)

  claims-look : (s : Setup) (f : Flight P) → claims (look s f).stage ≡ 0
  unfolding look
  claims-look s f =
      if_holds (λ (x : Flight P). claims x.stage ≡ 0) (is_empty f.reads.transcript_path) _ _
        (λ _. refl) (λ _. claims_of_found (failed_critical_outcome s.decoders f.reads.transcript))

  claims-submit :
      (s : Setup) (tool err_text : String) (f : Flight P)
      → claims (submit s tool err_text f).stage ≡ 1
  unfolding submit
  claims-submit s tool err_text f =
      let msg = reprompt_directive tool err_text (retryable_outcome_failure s.lower err_text) in
      if_holds (λ (x : Flight P). claims x.stage ≡ 1) (f.reads.accepts msg f.rec.callback_url) _ _
        (λ _. refl) (λ _. refl)

  section-IsCounted :
      (s : Setup) (g : Stage) (k : ℕ) (a : App) (f : Flight P)
      → f.stage ≡ g
      → (a.outcome_reprompts ≡ k + claims g) × (a.outcome_reprompts ≤ 2)
      → IsCounted k (section s g a f).0 (section s g a f).1
  unfolding take_issues take_repos claim roll_back hold_internal_issues hold_repo_lists deliver
  section-IsCounted s pushed k a f e h = h
  section-IsCounted s issues_taken k a f e h = h
  section-IsCounted s repos_taken k a f e h = (rw (claims-look s f) h.0, h.1)
  section-IsCounted s (rejected tool err_text) k a f e h = ground arith
  section-IsCounted s (claimed tool err_text) k a f e h =
      (rw (claims-submit s tool err_text f) h.0, h.1)
  section-IsCounted s (rolling_back tool) k a f e h = (omega arith, omega arith)
  section-IsCounted s (reprompted tool err_text) k a f e h = h
  section-IsCounted s issues_held k a f e h = h
  section-IsCounted s delivering k a f e h = h
  section-IsCounted s delivered k a f e h = rw e h
  section-IsCounted s suppressed k a f e h = rw e h

  abbrev AllCounted : ℕ → App → List (Flight P) → Type 0
  AllCounted k a fs = (a.outcome_reprompts ≡ k + total claims_in fs) × (a.outcome_reprompts ≤ 2)

  run_at-AllCounted :
      (s : Setup) (i k : ℕ) (a : App) (fs : List (Flight P))
      → AllCounted k a fs
      → AllCounted k (run_at s i a fs).0 (run_at s i a fs).1
  unfolding run_at advance
  run_at-AllCounted s i k a [] h = h
  run_at-AllCounted s zero k a (f ∷ fs) h =
      let c = section-IsCounted s f.stage (k + total claims_in fs) a f refl (omega arith, h.1) in
      (omega arith, c.1)
  run_at-AllCounted s (suc i) k a (f ∷ fs) h =
      let c = run_at-AllCounted s i (k + claims_in f) a fs (omega arith, h.1) in (omega arith, c.1)

  abbrev InBudget : Pod P → Type 0
  InBudget p = AllCounted 0 p.app p.flights

  run-InBudget : (s : Setup) (es : List (Event P)) (p : Pod P) → InBudget p → InBudget (run s es p)
  unfolding run perform
  run-InBudget s [] p h = h
  run-InBudget s (begins rec reads ∷ es) p h =
      run-InBudget s es (perform s (begins rec reads) p) (omega arith, h.1)
  run-InBudget s (moves i ∷ es) p h =
      run-InBudget s es (perform s (moves i) p) (run_at-AllCounted s i 0 p.app p.flights h)

  all_ended :
      (fs : List (Flight P)) → total ended_in fs ≤ total delivered_in fs + total claims_in fs
  all_ended [] = omega arith
  all_ended (f ∷ fs) = omega (arith, ended_split f.stage, all_ended fs)

-- In any interleaving, all but at most two of the turns of a pod that have ended have handed their
-- callback on, and the count of re-prompts never exceeds two.
pub callbacks_get_through :
    {P : Type 0} (s : Setup) (es : List (Event P))
    → (total ended_in (run s es new_pod).flights
        ≤ total delivered_in (run s es new_pod).flights + 2)
      × ((run s es new_pod).app.outcome_reprompts ≤ 2)
callbacks_get_through s es =
    let b = run-InBudget s es new_pod (refl, omega arith) in
    (omega (arith, all_ended (run s es new_pod).flights), b.1)
