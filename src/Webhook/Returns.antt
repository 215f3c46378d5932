-- ===== src/Webhook/Returns.antt =====
-- internal/webhook/webhook.go: a shutdown can return from whatever state.
use tatara_claude_code_wrapp.Common.{
  ℕ, zero, suc, ◌≡◌, refl, ap, ◌∙◌, true, List, [], ◌∷◌, arith, length, Option-cases, inl, inr,
}
use tatara_claude_code_wrapp.Webhook.{Config, Outcome, ok, dropped, deliver}
use tatara_claude_code_wrapp.Webhook.Sender.{
  Attempts, network_of, Sender, new_sender, count, leave, take_job, finish_job, Event, finishes,
  closes, perform, run,
}
use tatara_claude_code_wrapp.Webhook.Drained.{
  IsBalanced, run_new-IsBalanced, perform-IsBalanced, finish_job-IsBalanced,
}

-- One event for each job, which finishes the newest that runs.
abbrev pub finish_all : List Attempts → List Event
finish_all [] = []
finish_all (x ∷ xs) = finishes 0 ∷ finish_all xs

leave_jobs : (t : Sender) → (leave t).jobs ≡ t.jobs
leave_jobs t =
    elim t.tracked
      as (λ k.
        (elim k as (λ _. Sender) [ zero ↦ t | suc n ↦ record t { tracked = n } ]).jobs ≡ t.jobs) [
          | zero ↦ refl
          | suc n ↦ refl
        ]

count_jobs : (o : Outcome) (t : Sender) → (count o t).jobs ≡ t.jobs
count_jobs ok t = refl
count_jobs dropped t = refl

finish_first :
    (x : Attempts) (xs : List Attempts) (s : Sender) → s.jobs ≡ x ∷ xs → (finish_job 0 s).jobs ≡ xs
unfolding finish_job take_job
finish_first x xs s e = rw e (
    leave_jobs (count (deliver (network_of x) s.cfg).outcome (record s { jobs = xs }))
    ∙ count_jobs (deliver (network_of x) s.cfg).outcome (record s { jobs = xs }))

leave_closed : (t : Sender) → (leave t).closed ≡ t.closed
leave_closed t =
    elim t.tracked
      as (λ k.
        (elim k as (λ _. Sender) [ zero ↦ t | suc n ↦ record t { tracked = n } ]).closed
        ≡ t.closed) [ zero ↦ refl | suc n ↦ refl ]

count_closed : (o : Outcome) (t : Sender) → (count o t).closed ≡ t.closed
count_closed ok t = refl
count_closed dropped t = refl

finish_job_closed : (i : ℕ) (s : Sender) → (finish_job i s).closed ≡ s.closed
unfolding finish_job
finish_job_closed i s = elim (Option-cases (take_job i s.jobs)) [
  | inl missing ↦ rw missing refl
  | inr (p, found) ↦ rw found (
      leave_closed (count (deliver (network_of p.0) s.cfg).outcome (record s { jobs = p.1 }))
      ∙ count_closed (deliver (network_of p.0) s.cfg).outcome (record s { jobs = p.1 }))
]

run-finish_all :
    (xs : List Attempts) (s : Sender)
    → IsBalanced s
    → s.jobs ≡ xs
    → ((run (finish_all xs) s).closed ≡ s.closed) × ((run (finish_all xs) s).tracked ≡ 0)
unfolding run perform
run-finish_all [] s b e = (refl, omega (arith, b.running, ap length e))
run-finish_all (x ∷ xs) s b e =
    let rest =
      run-finish_all xs (finish_job 0 s) (finish_job-IsBalanced 0 s b) (finish_first x xs s e) in
    (rest.0 ∙ finish_job_closed 0 s, rest.1)

-- From whatever state a sender is in, a shutdown can return: once it is closed, and each delivery that
-- runs has come to its end, nothing is tracked.
pub shutdown_returns :
    (cfg : Config) (es : List Event)
    → ((run (closes ∷ finish_all (run es (new_sender cfg)).jobs) (run es (new_sender cfg))).closed
        ≡ true)
      × ((run
            (closes ∷ finish_all (run es (new_sender cfg)).jobs)
            (run es (new_sender cfg))).tracked
          ≡ 0)
unfolding run perform
shutdown_returns cfg es =
    let s = run es (new_sender cfg) in
    run-finish_all s.jobs (record s { closed = true })
      (perform-IsBalanced closes s (run_new-IsBalanced cfg es)) refl
