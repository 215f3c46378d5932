-- ===== src/Webhook/Drained.antt =====
-- internal/webhook/webhook.go: every delivery that is let in is counted once, and a shutdown is final.
use tatara_claude_code_wrapp.Common.{
  ℕ, zero, suc, ◌+◌, ◌≡◌, refl, true, List, [], ◌∷◌, Option, none, some, String, arith, is_empty,
  length, if_holds, Option-cases, inl, inr,
}
use tatara_claude_code_wrapp.Webhook.{Config, Outcome, ok, dropped, deliver}
use tatara_claude_code_wrapp.Webhook.Sender.{
  Attempts, network_of, Sender, new_sender, count, enter, leave, deliver_payload, take_job,
  finish_job, Event, delivers, finishes, closes, cancels, perform, run,
}

-- What runs is tracked, and what was let in runs or was counted.
pub record IsBalanced (s : Sender) : Type 0 where
  pub running : s.tracked ≡ length s.jobs
  pub counted : s.accepted ≡ s.tracked + s.ok_count + s.dropped_count

take_job_less :
    (i : ℕ) (xs : List Attempts) (x : Attempts) (rest : List Attempts)
    → take_job i xs ≡ some (x, rest)
    → length xs ≡ suc (length rest)
unfolding take_job
take_job_less i [] x rest e = cc
take_job_less zero (y ∷ xs) x rest e = ground arith
take_job_less (suc i) (y ∷ xs) x rest e = elim (Option-cases (take_job i xs)) [
  | inl missing ↦ ground (arith, missing)
  | inr (p, found) ↦ ground (arith, found, take_job_less i xs p.0 p.1)
]

counted-IsBalanced :
    (o : Outcome) (s : Sender) (n : ℕ)
    → s.tracked ≡ suc n
    → n ≡ length s.jobs
    → s.accepted ≡ s.tracked + s.ok_count + s.dropped_count
    → IsBalanced (leave (count o s))
counted-IsBalanced ok s n e f g = ground arith
counted-IsBalanced dropped s n e f g = ground arith

deliver_payload-IsBalanced :
    (url : String) (body : Option String) (x : Attempts) (s : Sender)
    → IsBalanced s
    → IsBalanced (deliver_payload url body x s)
unfolding deliver_payload
deliver_payload-IsBalanced url none x s b =
    if_holds IsBalanced (is_empty url) _ _ (λ _. b)
      (λ _.
        if_holds IsBalanced s.closed _ _ (λ _. b)
          (λ _.
            counted-IsBalanced dropped (enter s) s.tracked (omega arith) b.running (omega arith)))
deliver_payload-IsBalanced url (some body) x s b =
    if_holds IsBalanced (is_empty url) _ _ (λ _. b)
      (λ _.
        if_holds IsBalanced s.closed _ _ (λ _. b)
          (λ _. record { running = omega arith; counted = omega arith }))

pub finish_job-IsBalanced : (i : ℕ) (s : Sender) → IsBalanced s → IsBalanced (finish_job i s)
unfolding finish_job
finish_job-IsBalanced i s b = elim (Option-cases (take_job i s.jobs)) [
  | inl missing ↦ rw missing b
  | inr (p, found) ↦ rw found (
      counted-IsBalanced (deliver (network_of p.0) s.cfg).outcome (record s { jobs = p.1 })
        (length p.1) (omega (arith, take_job_less i s.jobs p.0 p.1 found)) refl b.counted)
]

pub perform-IsBalanced : (e : Event) (s : Sender) → IsBalanced s → IsBalanced (perform e s)
unfolding perform
perform-IsBalanced (delivers url body x) s b = deliver_payload-IsBalanced url body x s b
perform-IsBalanced (finishes i) s b = finish_job-IsBalanced i s b
perform-IsBalanced closes s b = record { running = b.running; counted = b.counted }
perform-IsBalanced cancels s b = record { running = b.running; counted = b.counted }

pub run-IsBalanced : (es : List Event) (s : Sender) → IsBalanced s → IsBalanced (run es s)
unfolding run
run-IsBalanced [] s b = b
run-IsBalanced (e ∷ es) s b = run-IsBalanced es (perform e s) (perform-IsBalanced e s b)

pub run_new-IsBalanced : (cfg : Config) (es : List Event) → IsBalanced (run es (new_sender cfg))
run_new-IsBalanced cfg es =
    run-IsBalanced es (new_sender cfg) (record { running = refl; counted = omega arith })

-- As it was when `Shutdown` returned.
pub record IsFinal (old s : Sender) : Type 0 where
  pub shut : s.closed ≡ true
  pub idle : s.jobs ≡ []
  pub untracked : s.tracked ≡ 0
  pub same_accepted : s.accepted ≡ old.accepted
  pub same_ok : s.ok_count ≡ old.ok_count
  pub same_dropped : s.dropped_count ≡ old.dropped_count

deliver_payload_closed :
    (url : String) (body : Option String) (x : Attempts) (s : Sender)
    → s.closed ≡ true
    → deliver_payload url body x s ≡ s
unfolding deliver_payload
deliver_payload_closed url body x s e =
    if_holds (λ (t : Sender). t ≡ s) (is_empty url) _ _ (λ _. refl)
      (λ _. if_holds (λ (t : Sender). t ≡ s) s.closed _ _ (λ _. refl) (λ f. absurd cc))

finish_job_idle : (i : ℕ) (s : Sender) → s.jobs ≡ [] → finish_job i s ≡ s
unfolding finish_job
finish_job_idle i s e = rw (none_left i s.jobs e) refl
  where
    none_left : (i : ℕ) (xs : List Attempts) → xs ≡ [] → take_job i xs ≡ none
    none_left i [] e = refl
    none_left i (x ∷ xs) e = cc

perform-IsFinal :
    (old : Sender) (e : Event) (s : Sender) → IsFinal old s → IsFinal old (perform e s)
unfolding perform
perform-IsFinal old (delivers url body x) s f = rw (deliver_payload_closed url body x s f.shut) f
perform-IsFinal old (finishes i) s f = rw (finish_job_idle i s f.idle) f
perform-IsFinal old closes s f = record {
  shut = refl;
  idle = f.idle;
  untracked = f.untracked;
  same_accepted = f.same_accepted;
  same_ok = f.same_ok;
  same_dropped = f.same_dropped;
}
perform-IsFinal old cancels s f = record {
  shut = f.shut;
  idle = f.idle;
  untracked = f.untracked;
  same_accepted = f.same_accepted;
  same_ok = f.same_ok;
  same_dropped = f.same_dropped;
}

run-IsFinal : (old : Sender) (es : List Event) (s : Sender) → IsFinal old s → IsFinal old (run es s)
unfolding run
run-IsFinal old [] s f = f
run-IsFinal old (e ∷ es) s f = run-IsFinal old es (perform e s) (perform-IsFinal old e s f)

empty_of_length : (xs : List Attempts) → length xs ≡ 0 → xs ≡ []
empty_of_length [] e = refl
empty_of_length (x ∷ xs) e = absurd (omega arith)

-- When a shutdown returns, the sender is closed and nothing is tracked. Then each delivery that was let
-- in has been counted once, as delivered or as dropped, none runs, and whatever is called later lets
-- none in and counts none.
pub shutdown-IsFinal :
    (cfg : Config) (es later : List Event)
    → (run es (new_sender cfg)).closed ≡ true
    → (run es (new_sender cfg)).tracked ≡ 0
    → ((run es (new_sender cfg)).accepted
        ≡ (run es (new_sender cfg)).ok_count + (run es (new_sender cfg)).dropped_count)
      × IsFinal (run es (new_sender cfg)) (run later (run es (new_sender cfg)))
shutdown-IsFinal cfg es later shut zero_left =
    let s = run es (new_sender cfg) in
    let b = run_new-IsBalanced cfg es in
    (
      omega (arith, b.counted, zero_left),
      run-IsFinal s later s (record {
        shut = shut;
        idle = empty_of_length s.jobs (omega (arith, b.running, zero_left));
        untracked = zero_left;
        same_accepted = refl;
        same_ok = refl;
        same_dropped = refl;
      }),
    )
