-- ===== src/Wrapper/Finalize/Issues.antt =====
-- cmd/wrapper/app.go: no internal issue that a turn drained is lost or told twice.
use tatara_claude_code_wrapp.Common.{
  ℕ, ◌+◌, ◌≡◌, refl, List, [], ◌∷◌, ◌++◌, Option, none, some, String, arith, is_empty, if_holds,
}
use tatara_claude_code_wrapp.Turn.Records.{InternalIssueReport}
use tatara_claude_code_wrapp.Transcript.Outcome.{failed_critical_outcome}
use tatara_claude_code_wrapp.Wrapper.Reprompt.{retryable_outcome_failure, reprompt_directive}
use tatara_claude_code_wrapp.Wrapper.Payload.{CallbackPayload}
use tatara_claude_code_wrapp.Wrapper.Finalize.{
  App, Stage, pushed, issues_taken, repos_taken, delivering, delivered, suppressed, rejected,
  claimed, reprompted, rolling_back, issues_held, Flight, Setup, take_issues, take_repos, look,
  claim, submit, roll_back, hold_internal_issues, hold_repo_lists, deliver, advance, section,
  stage_of,
}
use tatara_claude_code_wrapp.Wrapper.Finalize.Pod.{Pod, new_pod, Event, begins, moves, perform, run}
use tatara_claude_code_wrapp.Wrapper.Finalize.Sums.{total, Conserves, run_at-Conserves}

module _ (w : InternalIssueReport → ℕ) where
  abbrev pub weigh : List InternalIssueReport → ℕ
  weigh [] = 0
  weigh (r ∷ rs) = w r + weigh rs

  weigh-append : (xs ys : List InternalIssueReport) → weigh (xs ++ ys) ≡ weigh xs + weigh ys
  weigh-append [] ys = omega arith
  weigh-append (x ∷ xs) ys = omega (arith, weigh-append xs ys)

  abbrev pub weigh_sent : {P : Type 0} → Option (String × CallbackPayload P) → ℕ
  weigh_sent none = 0
  weigh_sent (some (url, payload)) = weigh payload.internal_issues

  -- What a turn has on it, by its stage: nothing yet, what it has sent, nothing any more, or what it
  -- is about to send or to hold.
  abbrev pub weigh_at : {P : Type 0} → Stage → Flight P → ℕ
  weigh_at pushed f = 0
  weigh_at delivered f = weigh_sent f.sent
  weigh_at issues_held f = 0
  weigh_at suppressed f = 0
  weigh_at _ f = weigh f.rec.internal_issues

  abbrev drained_at : {P : Type 0} → Stage → Flight P → ℕ
  drained_at pushed f = 0
  drained_at _ f = weigh f.reads.drained

abbrev pub held : (InternalIssueReport → ℕ) → App → ℕ
held w a = weigh w a.held_internal_issues

module _ {P : Type 0} (w : InternalIssueReport → ℕ) where
  abbrev pub carried : Flight P → ℕ
  carried f = weigh_at w f.stage f

  -- What a turn that has come to the drain has drained.
  abbrev pub drained : Flight P → ℕ
  drained f = drained_at w f.stage f

  abbrev Same : Flight P → Flight P → Type 0
  Same f f' = (carried f' ≡ weigh w f.rec.internal_issues) × (drained f' ≡ weigh w f.reads.drained)

  look-Same : (s : Setup) (f : Flight P) → Same f (look s f)
  unfolding look
  look-Same s f =
      if_holds (Same f) (is_empty f.reads.transcript_path) _ _ (λ _. (refl, refl))
        (λ _. found (failed_critical_outcome s.decoders f.reads.transcript))
    where
      found : (o : Option (Option (String × String))) → Same f (record f { stage = stage_of o })
      found none = (refl, refl)
      found (some none) = (refl, refl)
      found (some (some x)) = (refl, refl)

  submit-Same :
      (s : Setup) (tool err_text : String) (f : Flight P) → Same f (submit s tool err_text f)
  unfolding submit
  submit-Same s tool err_text f =
      let msg = reprompt_directive tool err_text (retryable_outcome_failure s.lower err_text) in
      if_holds (Same f) (f.reads.accepts msg f.rec.callback_url) _ _ (λ _. (refl, refl))
        (λ _. (refl, refl))

  section_conserves :
      (s : Setup) (g : Stage) (a : App) (f : Flight P)
      → f.stage ≡ g
      → held w (section s g a f).0 + carried (section s g a f).1 + drained_at w g f
        ≡ held w a + weigh_at w g f + drained (section s g a f).1
  unfolding take_issues take_repos claim roll_back hold_internal_issues hold_repo_lists deliver
  section_conserves s pushed a f e =
      omega (arith, weigh-append w a.held_internal_issues f.reads.drained)
  section_conserves s issues_taken a f e = omega arith
  section_conserves s repos_taken a f e = omega (arith, (look-Same s f).0, (look-Same s f).1)
  section_conserves s (rejected tool err_text) a f e = ground arith
  section_conserves s (claimed tool err_text) a f e =
      omega (arith, (submit-Same s tool err_text f).0, (submit-Same s tool err_text f).1)
  section_conserves s (rolling_back tool) a f e = omega arith
  section_conserves s (reprompted tool err_text) a f e =
      omega (arith, weigh-append w a.held_internal_issues f.rec.internal_issues)
  section_conserves s issues_held a f e = omega arith
  section_conserves s delivering a f e = omega arith
  section_conserves s delivered a f e = rw e (omega arith)
  section_conserves s suppressed a f e = rw e (omega arith)

  advance-Conserves : (s : Setup) → Conserves (held w) carried drained s
  unfolding advance
  advance-Conserves s a f = section_conserves s f.stage a f refl

  abbrev Balanced : Pod P → Type 0
  Balanced p = held w p.app + total carried p.flights ≡ total drained p.flights

  perform-Balanced : (s : Setup) (e : Event P) (p : Pod P) → Balanced p → Balanced (perform s e p)
  unfolding perform
  perform-Balanced s (begins rec reads) p h = omega arith
  perform-Balanced s (moves i) p h =
      omega
        (arith, run_at-Conserves (held w) carried drained s (advance-Conserves s) i p.app p.flights)

  run-Balanced : (s : Setup) (es : List (Event P)) (p : Pod P) → Balanced p → Balanced (run s es p)
  unfolding run
  run-Balanced s [] p h = h
  run-Balanced s (e ∷ es) p h = run-Balanced s es (perform s e p) (perform-Balanced s e p h)

-- In any interleaving of the turns of a pod, and however reports are weighed, the reports that are
-- held, that are on their way, and that callbacks have carried weigh as much as all that was drained:
-- each drained report is in exactly one place.
pub no_report_lost :
    {P : Type 0} (w : InternalIssueReport → ℕ) (s : Setup) (es : List (Event P))
    → held w (run s es new_pod).app + total (carried w) (run s es new_pod).flights
      ≡ total (drained w) (run s es new_pod).flights
no_report_lost w s es = run-Balanced w s es new_pod (omega arith)
