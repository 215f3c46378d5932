-- ===== src/Wrapper/Finalize/Ends.antt =====
-- cmd/wrapper/app.go: the end of a turn is reached, whatever the other turns do.
use tatara_claude_code_wrapp.Common.{
  ℕ, ◌≡◌, ◌≤◌, ◌<◌, ◌⊎◌, refl, true, List, [], ◌∷◌, Option, none, some, String, arith, length,
  is_empty, ltb, if_holds, inl, inr,
}
use tatara_claude_code_wrapp.Turn.Records.{Record}
use tatara_claude_code_wrapp.Wrapper.Finalize.Pod.{new_flight}
use tatara_claude_code_wrapp.Transcript.Outcome.{failed_critical_outcome}
use tatara_claude_code_wrapp.Wrapper.Reprompt.{
  max_outcome_reprompts, retryable_outcome_failure, reprompt_directive,
}
use tatara_claude_code_wrapp.Wrapper.Finalize.{
  App, Stage, pushed, issues_taken, repos_taken, delivering, delivered, suppressed, rejected,
  claimed, reprompted, rolling_back, issues_held, Flight, Setup, take_issues, take_repos, look,
  claim, submit, roll_back, hold_internal_issues, hold_repo_lists, deliver, advance, section,
  stage_of, callback_of, Reads,
}

-- How many sections are left at most.
abbrev pub left : Stage → ℕ
left pushed = 7
left issues_taken = 6
left repos_taken = 5
left (rejected tool err_text) = 4
left (claimed tool err_text) = 3
left (rolling_back tool) = 2
left (reprompted tool err_text) = 2
left issues_held = 1
left delivering = 1
left delivered = 0
left suppressed = 0

left_of_found : (o : Option (Option (String × String))) → left (stage_of o) < 5
left_of_found none = omega arith
left_of_found (some none) = omega arith
left_of_found (some (some x)) = omega arith

module _ {P : Type 0} (s : Setup) where
  look_left : (f : Flight P) → left (look s f).stage < 5
  unfolding look
  look_left f =
      ground (arith, left_of_found (failed_critical_outcome s.decoders f.reads.transcript))

  section_left :
      (g : Stage) (a : App) (f : Flight P)
      → f.stage ≡ g
      → (left (section s g a f).1.stage < left g) ⊎ (left (section s g a f).1.stage ≡ 0)
  unfolding take_issues take_repos claim submit roll_back hold_internal_issues hold_repo_lists
      deliver
  section_left pushed a f e = ground arith
  section_left issues_taken a f e = ground arith
  section_left repos_taken a f e = inl (look_left f)
  section_left (rejected tool err_text) a f e = ground arith
  section_left (claimed tool err_text) a f e = ground arith
  section_left (rolling_back tool) a f e = ground arith
  section_left (reprompted tool err_text) a f e = ground arith
  section_left issues_held a f e = ground arith
  section_left delivering a f e = ground arith
  section_left delivered a f e = ground arith
  section_left suppressed a f e = ground arith

  -- The session took the re-prompt that the turn submitted.
  abbrev pub Asked : Flight P → Type 0
  Asked f =
      (msg : String) × (f.submitted ≡ some msg) × (f.reads.accepts msg f.rec.callback_url ≡ true)

  -- A turn meets the app as the other turns have left it, once for each of its sections.
  unfoldable pub among : List App → Flight P → Flight P
  unfolding advance
  among [] f = f
  among (a ∷ apps) f = among apps (advance s a f).1

  among_left :
      (apps : List App) (f : Flight P) → left f.stage ≤ length apps → left (among apps f).stage ≡ 0
  unfolding among advance
  among_left [] f h = omega arith
  among_left (a ∷ apps) f h = elim (section_left f.stage a f refl) [
    | inl less ↦ among_left apps (section s f.stage a f).1 (omega arith)
    | inr over ↦ among_left apps (section s f.stage a f).1 (omega arith)
  ]

  -- What a turn has said to the agent and to the operator, by where it stands.
  abbrev Told : Stage → Flight P → Type 0
  Told delivered f = f.sent ≡ some (callback_of s f)
  Told (reprompted tool err_text) f = Asked f × (f.sent ≡ none)
  Told issues_held f = Asked f × (f.sent ≡ none)
  Told suppressed f = Asked f × (f.sent ≡ none)
  Told _ f = f.sent ≡ none

  look-Told : (f : Flight P) → f.sent ≡ none → Told (look s f).stage (look s f)
  unfolding look
  look-Told f e =
      if_holds (λ (x : Flight P). Told x.stage x) (is_empty f.reads.transcript_path) _ _ (λ _. e)
        (λ _. found (failed_critical_outcome s.decoders f.reads.transcript))
    where
      found :
          (o : Option (Option (String × String)))
          → Told (stage_of o) (record f { stage = stage_of o })
      found none = e
      found (some none) = e
      found (some (some x)) = e

  claim-Told :
      (tool err_text : String) (a : App) (f : Flight P)
      → f.sent ≡ none
      → Told (claim tool err_text a f).1.stage (claim tool err_text a f).1
  unfolding claim
  claim-Told tool err_text a f e =
      if_holds (λ (x : App × Flight P). Told x.1.stage x.1)
        (ltb a.outcome_reprompts max_outcome_reprompts) _ _ (λ _. e) (λ _. e)

  submit-Told :
      (tool err_text : String) (f : Flight P)
      → f.sent ≡ none
      → Told (submit s tool err_text f).stage (submit s tool err_text f)
  unfolding submit
  submit-Told tool err_text f e =
      let msg = reprompt_directive tool err_text (retryable_outcome_failure s.lower err_text) in
      if_holds (λ (x : Flight P). Told x.stage x) (f.reads.accepts msg f.rec.callback_url) _ _
        (λ taken. ((msg, refl, taken), e)) (λ _. e)

  section-Told :
      (g : Stage) (a : App) (f : Flight P)
      → f.stage ≡ g
      → Told g f
      → Told (section s g a f).1.stage (section s g a f).1
  unfolding take_issues take_repos roll_back hold_internal_issues hold_repo_lists deliver
  section-Told pushed a f e t = t
  section-Told issues_taken a f e t = t
  section-Told repos_taken a f e t = look-Told f t
  section-Told (rejected tool err_text) a f e t = claim-Told tool err_text a f t
  section-Told (claimed tool err_text) a f e t = submit-Told tool err_text f t
  section-Told (rolling_back tool) a f e t = t
  section-Told (reprompted tool err_text) a f e t = t
  section-Told issues_held a f e t = t
  section-Told delivering a f e t = refl
  section-Told delivered a f e t = rw e t
  section-Told suppressed a f e t = rw e t

  among-Told :
      (apps : List App) (f : Flight P) → Told f.stage f → Told (among apps f).stage (among apps f)
  unfolding among advance
  among-Told [] f t = t
  among-Told (a ∷ apps) f t =
      among-Told apps (section s f.stage a f).1 (section-Told f.stage a f refl t)

  -- A finished turn has handed on the callback that its record makes, or has not, and then the session
  -- took its re-prompt.
  pub data Ended (f : Flight P) : Type 0 where
    called_back : f.stage ≡ delivered → f.sent ≡ some (callback_of s f) → Ended f
    held_back : f.stage ≡ suppressed → Asked f → f.sent ≡ none → Ended f

  over : (g : Stage) (f : Flight P) → f.stage ≡ g → left g ≡ 0 → Told g f → Ended f
  over delivered f e z t = called_back e t
  over suppressed f e z t = held_back e t.0 t.1
  over pushed f e z t = absurd (omega arith)
  over issues_taken f e z t = absurd (omega arith)
  over repos_taken f e z t = absurd (omega arith)
  over (rejected tool err_text) f e z t = absurd (omega arith)
  over (claimed tool err_text) f e z t = absurd (omega arith)
  over (rolling_back tool) f e z t = absurd (omega arith)
  over (reprompted tool err_text) f e z t = absurd (omega arith)
  over issues_held f e z t = absurd (omega arith)
  over delivering f e z t = absurd (omega arith)

  -- However the other turns leave what they share before each of its sections, seven sections finish
  -- the end of a turn: its callback is handed on, or the session took its re-prompt and no callback
  -- is sent.
  pub finalize_ends :
      (rec : Record) (reads : Reads P) (apps : List App)
      → 7 ≤ length apps
      → Ended (among apps (new_flight rec reads))
  finalize_ends rec reads apps h =
      over _ _ refl (among_left apps (new_flight rec reads) h)
        (among-Told apps (new_flight rec reads) refl)
