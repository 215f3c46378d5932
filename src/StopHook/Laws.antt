-- ===== src/StopHook/Laws.antt =====
-- cmd/cc-stop-hook/main.go: what the retries of a report do to the session.
use tatara_claude_code_wrapp.Common.{
  ℕ, zero, suc, ◌+◌, ◌≡◌, ◌∙◌, ◌≢◌, ◌⊎◌, inl, inr, refl, sym, ap, true, false, Option, none, some,
  String, Time, is_empty, ltb, if◌then◌else◌, arith, Option-cases, Bool-cases,
}
use tatara_claude_code_wrapp.Session.State.{Error, no_turn, store_complete, HookResult, Manager}
use tatara_claude_code_wrapp.Session.Hook.{complete, reject, take_report, finish}
use tatara_claude_code_wrapp.Turn.Store
use tatara_claude_code_wrapp.Api.{turn_complete}
use tatara_claude_code_wrapp.StopHook.{
  Delivery, unmade, unreached, answer_lost, answered, PostError, no_request, transport, unexpected,
  Wire, attempts, post_with_retry, to_session,
}

abbrev pub completions : Manager → ℕ
completions m = m.metrics.turns_complete

-- What one report does: it completes the turn in flight, or is refused.
data Effect (m n : Manager) (status : ℕ) : Type 0 where
  completes :
      m.current ≢ ""
      → status ≡ 204
      → n.current ≡ ""
      → completions n ≡ suc (completions m)
      → Effect m n status
  refuses :
      ltb status 300 ≡ false
      → n.current ≡ m.current
      → completions n ≡ completions m
      → Effect m n status

-- The same of `Complete` and the error that it returns.
data Ending (m : Manager) (r : Manager × Option Error) : Type 0 where
  ended :
      m.current ≢ ""
      → r.1 ≡ none
      → r.0.current ≡ ""
      → completions r.0 ≡ suc (completions m)
      → Ending m r
  kept :
      (e : Error)
      → r.1 ≡ some e
      → r.0.current ≡ m.current
      → completions r.0 ≡ completions m
      → Ending m r

take_report_same :
    (r : HookResult) (m : Manager)
    → ((take_report r m).current ≡ m.current) × (completions (take_report r m) ≡ completions m)
unfolding take_report
take_report_same r m = (ground arith, ground arith)

finish_ending :
    (r : HookResult) (now : Time) (m : Manager) → m.current ≢ "" → Ending m (finish r now m)
unfolding finish
finish_ending r now m taken =
    elim (Option-cases
      (Store.complete m.current r.final_text r.result_json r.usage r.stop_reason now m.store).1) [
        | inr (e, failed) ↦
            kept (store_complete m.current) (ground arith) (ground arith) (ground arith)
        | inl stored ↦ ended taken (ground arith) (ground arith) (ground arith)
      ]

Ending-from :
    {m m' : Manager} {r : Manager × Option Error}
    → m'.current ≡ m.current
    → completions m' ≡ completions m
    → Ending m' r
    → Ending m r
Ending-from e f (ended taken done freed more) = ended (λ h. taken (e ∙ h)) done freed (cc (more, f))
Ending-from e f (kept x failed same more) = kept x failed (same ∙ e) (more ∙ f)

nonempty : (text : String) → is_empty text ≡ false → text ≢ ""
nonempty text e h = let clash : false ≡ true = sym e ∙ ap is_empty h in absurd cc

complete_ending : (r : HookResult) (now : Time) (m : Manager) → Ending m (complete r now m)
unfolding complete
complete_ending r now m = elim (Bool-cases (is_empty m.current)) [
  | inl idle ↦ kept no_turn (ground arith) (ground arith) (ground arith)
  | inr taken ↦ elim (Option-cases (reject r m)) [
    | inr (e, refused) ↦ kept e (ground arith) (ground arith) (ground arith)
    | inl fine ↦
        let same = take_report_same r m in
        rw (taken, fine)
          (Ending-from same.0 same.1 (
            finish_ending r now (take_report r m) (λ h. nonempty m.current taken (sym same.0 ∙ h))))
  ]
]

turn_complete_effect :
    (decoded : Option HookResult) (now : Time) (m : Manager)
    → Effect m (turn_complete decoded now m).0 (turn_complete decoded now m).1.status
unfolding turn_complete
turn_complete_effect none now m = refuses refl refl refl
turn_complete_effect (some r) now m = elim (complete_ending r now m) [
  | ended taken done freed more ↦ rw (done, turn_complete) (completes taken refl freed more)
  | kept e failed same more ↦ rw (failed, turn_complete) (refuses refl same more)
]

Delivery-cases :
    (d : Delivery) → (d ≡ unmade) ⊎ (d ≡ unreached) ⊎ (d ≡ answer_lost) ⊎ (d ≡ answered)
Delivery-cases unmade = inl refl
Delivery-cases unreached = inr (inl refl)
Delivery-cases answer_lost = inr (inr (inl refl))
Delivery-cases answered = inr (inr (inr refl))

-- At most one turn is completed so far; behind that none is in flight.
pub data Spent (m n : Manager) : Type 0 where
  unspent : completions n ≡ completions m → Spent m n
  spent : n.current ≡ "" → completions n ≡ suc (completions m) → Spent m n

-- What the command makes of a report, and what it returns.
pub data Posted (m : Manager) (r : Manager × Option PostError) : Type 0 where
  accepted : r.1 ≡ none → r.0.current ≡ "" → completions r.0 ≡ suc (completions m) → Posted m r
  given_up : (e : PostError) → r.1 ≡ some e → Spent m r.0 → Posted m r

Spent-refuses :
    (m s n : Manager)
    → n.current ≡ s.current
    → completions n ≡ completions s
    → Spent m s
    → Spent m n
Spent-refuses m s n c e (unspent u) = unspent (e ∙ u)
Spent-refuses m s n c e (spent free u) = spent (c ∙ free) (e ∙ u)

completed_once :
    (m s n : Manager)
    → s.current ≢ ""
    → completions n ≡ suc (completions s)
    → Spent m s
    → completions n ≡ suc (completions m)
completed_once m s n taken e (unspent u) = cc (e, u)
completed_once m s n taken e (spent idle u) = absurd (taken idle)

Spent-Effect : (m s n : Manager) (status : ℕ) → Effect s n status → Spent m s → Spent m n
Spent-Effect m s n status (completes taken ok free e) h =
    spent free (completed_once m s n taken e h)
Spent-Effect m s n status (refuses bad c e) h = Spent-refuses m s n c e h

module _ (delivery : ℕ → Delivery) (decoded : Option HookResult) (now : ℕ → Time)
    (m : Manager) where
  abbrev pub undisturbed : Wire Manager
  undisturbed = to_session delivery decoded now (λ n s. s)

  answered-Posted :
      (s n : Manager) (status : ℕ) (rest : Manager × Option PostError)
      → Effect s n status
      → Spent m s
      → (Spent m n → Posted m rest)
      → Posted m (if ltb status 300 then (n, none) else rest)
  answered-Posted s n status rest (completes taken ok free e) h next =
      rw ok (accepted refl free (completed_once m s n taken e h))
  answered-Posted s n status rest (refuses bad c e) h next =
      rw bad (next (Spent-refuses m s n c e h))

  attempt-Posted :
      (left n : ℕ) (last : Option PostError) (s : Manager)
      → ((e : PostError) (t : Manager)
          → Spent m t
          → Posted m (attempts undisturbed left (n + 1) (some e) t))
      → Spent m s
      → Posted m (attempts undisturbed (suc left) n last s)
  unfolding attempts
  attempt-Posted left n last s next h = elim (Delivery-cases (delivery n)) [
    | inl is_unmade ↦ rw is_unmade (given_up no_request refl h)
    | inr (inl is_unreached) ↦ rw is_unreached (next (transport (n + 1)) s h)
    | inr (inr (inl is_lost)) ↦ rw is_lost (
        next (transport (n + 1)) _
          (Spent-Effect m s _ _ (turn_complete_effect decoded (now n) s) h))
    | inr (inr (inr is_answered)) ↦ rw is_answered (
        answered-Posted s _ _ _ (turn_complete_effect decoded (now n) s) h
          (λ k. next (unexpected (n + 1) _) _ k))
  ]

  attempts-Posted :
      (left n : ℕ) (e : PostError) (s : Manager)
      → Spent m s
      → Posted m (attempts undisturbed left n (some e) s)
  unfolding attempts
  attempts-Posted zero n e s h = given_up e refl h
  attempts-Posted (suc left) n e s h =
      attempt-Posted left n (some e) s (λ x t k. attempts-Posted left (n + 1) x t k) h

  -- If nothing else happens to the session between the attempts, then whichever of them reach it and
  -- whichever answers are lost, the report completes at most one turn. If the command returns no error,
  -- it has completed exactly one, and the slot is free.
  pub post_with_retry-Posted : Posted m (post_with_retry undisturbed m)
  unfolding post_with_retry
  post_with_retry-Posted =
      attempt-Posted 4 0 none m (λ e t k. attempts-Posted 4 1 e t k) (unspent refl)
