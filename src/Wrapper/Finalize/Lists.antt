-- ===== src/Wrapper/Finalize/Lists.antt =====
-- cmd/wrapper/app.go: no repository that a turn reports is forgotten by a callback that is held back.
use tatara_claude_code_wrapp.Common.{
  ℕ, zero, suc, ◌≡◌, refl, List, [], ◌∷◌, Option, none, some, String, arith, contains, is_empty,
  ltb, if_holds,
}
use tatara_claude_code_wrapp.Transcript.Outcome.{failed_critical_outcome}
use tatara_claude_code_wrapp.Wrapper.Repos.{RepoLists, merge_repo_lists}
use tatara_claude_code_wrapp.Wrapper.Repos.Laws.{merge_repo_lists_lem}
use tatara_claude_code_wrapp.Wrapper.Reprompt.{
  max_outcome_reprompts, retryable_outcome_failure, reprompt_directive,
}
use tatara_claude_code_wrapp.Wrapper.Payload.{CallbackPayload}
use tatara_claude_code_wrapp.Wrapper.Finalize.{
  App, no_repos, Stage, pushed, issues_taken, repos_taken, delivering, delivered, suppressed,
  rejected, claimed, reprompted, rolling_back, issues_held, Flight, Setup, lists_of, take_issues,
  take_repos, look, claim, submit, roll_back, hold_internal_issues, hold_repo_lists, deliver,
  advance, section, stage_of,
}
use tatara_claude_code_wrapp.Wrapper.Finalize.Says.{
  Says, says, silent, also, Keeps, Keeps-refl, same_says, handed_on, front, behind, begun, quiet,
  chain,
}
use tatara_claude_code_wrapp.Wrapper.Finalize.Pod.{
  Pod, new_pod, Event, begins, moves, run_at, perform, run,
}

abbrev pub lists_sent : {P : Type 0} → Option (String × CallbackPayload P) → RepoLists
lists_sent none = no_repos
lists_sent (some (url, payload)) = record {
  pushed = payload.pushed_repos;
  failed = payload.failed_repos;
}

-- What a turn has on it, by its stage.
abbrev pub lists_at : {P : Type 0} → Stage → Flight P → RepoLists
lists_at delivered f = lists_sent f.sent
lists_at suppressed f = no_repos
lists_at _ f = lists_of f.rec

merge-Keeps :
    (n : String) (held this : RepoLists)
    → Keeps (also (says n held) (says n this)) (says n (merge_repo_lists held this))
unfolding contains
merge-Keeps n held this =
    let m = (merge_repo_lists_lem held this).2 n in
    record {
      known = ground (arith, m.in_pushed, m.in_failed);
      unpushed = λ e. ground (arith, m.in_pushed, m.in_failed);
    }

module _ {P : Type 0} (n : String) where
  abbrev says_of : Flight P → Says
  says_of f = says n (lists_at f.stage f)

  abbrev Step : App → Says → App × Flight P → Type 0
  Step a x r = Keeps (also (says n a.held_repos) x) (also (says n r.0.held_repos) (says_of r.1))

  says_of-look : (s : Setup) (f : Flight P) → says_of (look s f) ≡ says n (lists_of f.rec)
  unfolding look
  says_of-look s f =
      if_holds (λ x. says_of x ≡ says n (lists_of f.rec)) (is_empty f.reads.transcript_path) _ _
        (λ _. refl) (λ _. found (failed_critical_outcome s.decoders f.reads.transcript))
    where
      found :
          (o : Option (Option (String × String)))
          → says_of (record f { stage = stage_of o }) ≡ says n (lists_of f.rec)
      found none = refl
      found (some none) = refl
      found (some (some x)) = refl

  says_of-submit :
      (s : Setup) (tool err_text : String) (f : Flight P)
      → says_of (submit s tool err_text f) ≡ says n (lists_of f.rec)
  unfolding submit
  says_of-submit s tool err_text f =
      let msg = reprompt_directive tool err_text (retryable_outcome_failure s.lower err_text) in
      if_holds (λ x. says_of x ≡ says n (lists_of f.rec)) (f.reads.accepts msg f.rec.callback_url) _
        _ (λ _. refl) (λ _. refl)

  section-Keeps :
      (s : Setup) (g : Stage) (a : App) (f : Flight P)
      → f.stage ≡ g
      → Step a (says n (lists_at g f)) (section s g a f)
  unfolding take_issues take_repos claim roll_back hold_internal_issues hold_repo_lists deliver
      contains
  section-Keeps s pushed a f e = Keeps-refl _
  section-Keeps s issues_taken a f e = merge-Keeps n a.held_repos (lists_of f.rec)
  section-Keeps s repos_taken a f e = same_says _ (says_of-look s f)
  section-Keeps s (rejected tool err_text) a f e =
      if_holds (Step a (says n (lists_of f.rec))) (ltb a.outcome_reprompts max_outcome_reprompts) _
        _ (λ _. Keeps-refl _) (λ _. Keeps-refl _)
  section-Keeps s (claimed tool err_text) a f e = same_says _ (says_of-submit s tool err_text f)
  section-Keeps s (rolling_back tool) a f e = Keeps-refl _
  section-Keeps s (reprompted tool err_text) a f e = Keeps-refl _
  section-Keeps s issues_held a f e = handed_on (merge-Keeps n a.held_repos (lists_of f.rec))
  section-Keeps s delivering a f e = Keeps-refl _
  section-Keeps s delivered a f e = rw e (Keeps-refl _)
  section-Keeps s suppressed a f e = rw e (Keeps-refl _)

  abbrev all_say : List (Flight P) → Says
  all_say [] = silent
  all_say (f ∷ fs) = also (says_of f) (all_say fs)

  -- What the app holds and the turns have on them.
  abbrev pub pod_says : Pod P → Says
  pod_says p = also (says n p.app.held_repos) (all_say p.flights)

  run_at-Keeps :
      (s : Setup) (i : ℕ) (a : App) (fs : List (Flight P))
      → Keeps
          (also (says n a.held_repos) (all_say fs))
          (also (says n (run_at s i a fs).0.held_repos) (all_say (run_at s i a fs).1))
  unfolding run_at advance
  run_at-Keeps s i a [] = Keeps-refl _
  run_at-Keeps s zero a (f ∷ fs) =
      let r = section s f.stage a f in
      front (says n a.held_repos) (says n r.0.held_repos) (says_of f) (says_of r.1) (all_say fs)
        (section-Keeps s f.stage a f refl)
  run_at-Keeps s (suc i) a (f ∷ fs) =
      let r = run_at s i a fs in
      behind (says n a.held_repos) (says n r.0.held_repos) (all_say fs) (all_say r.1) (says_of f)
        (run_at-Keeps s i a fs)

  abbrev pub event_says : Event P → Says
  event_says (begins rec reads) = says n (lists_of rec)
  event_says (moves i) = silent

  -- What the turns report of their own commits and pushes.
  abbrev pub events_say : List (Event P) → Says
  events_say [] = silent
  events_say (e ∷ es) = also (event_says e) (events_say es)

  perform-Keeps :
      (s : Setup) (e : Event P) (p : Pod P)
      → Keeps (also (pod_says p) (event_says e)) (pod_says (perform s e p))
  unfolding perform
  perform-Keeps s (begins rec reads) p =
      begun (says n p.app.held_repos) (says n (lists_of rec)) (all_say p.flights)
  perform-Keeps s (moves i) p = quiet _ _ (run_at-Keeps s i p.app p.flights)

  run-Keeps :
      (s : Setup) (es : List (Event P)) (p : Pod P)
      → Keeps (also (pod_says p) (events_say es)) (pod_says (run s es p))
  unfolding run
  run-Keeps s [] p = quiet _ _ (Keeps-refl (pod_says p))
  run-Keeps s (e ∷ es) p =
      chain (pod_says p) (event_says e) (events_say es) _ _ (perform-Keeps s e p)
        (run-Keeps s es (perform s e p))

-- In any interleaving, the repositories that the turns of a pod report, and no others, are in a list
-- that is held, on its way, or sent with a callback; and one of which no turn reports a push is in a
-- list of failures there exactly if some turn reports its failure.
pub no_repo_forgotten :
    {P : Type 0} (n : String) (s : Setup) (es : List (Event P))
    → Keeps (events_say n es) (pod_says n (run s es new_pod))
unfolding contains
no_repo_forgotten n s es = run-Keeps n s es new_pod
