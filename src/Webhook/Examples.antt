-- ===== src/Webhook/Examples.antt =====
-- internal/webhook/webhook.go: a delivery whose third attempt succeeds, and a sender that is shut down
-- behind a delivery that succeeds and a payload that cannot be marshalled.
use tatara_claude_code_wrapp.Common.{
  ◌≡◌, ◌↔◌, ◌+◌, refl, true, false, leb, List, [], ◌∷◌, some, none,
}
use tatara_claude_code_wrapp.Common.Int.{pos}
use tatara_claude_code_wrapp.Webhook.{Config, Network, ok, deliver, deliver_from, second}
use tatara_claude_code_wrapp.Webhook.Laws.{Reaches, deliver_iff}
use tatara_claude_code_wrapp.Webhook.Sender.{
  status, post, Attempts, new_sender, deliver_payload, finish_job, take_job, Event, delivers,
  finishes, closes, perform, run,
}
use tatara_claude_code_wrapp.Webhook.Drained.{IsFinal, shutdown-IsFinal}
use tatara_claude_code_wrapp.Webhook.Returns.{finish_all, shutdown_returns}

abbrev flaky : Network
flaky = record { posted = λ k. leb 2 k; cancelled = λ k. false }

deliver_iff_example :
    ((deliver flaky (record { retries = pos 3; backoff = second })).outcome ≡ ok)
    ↔ Reaches flaky 3 0
deliver_iff_example = deliver_iff flaky 3 second

abbrev twice : Config
twice = record { retries = pos 2; backoff = second }

abbrev accepting : Attempts
accepting = record { responses = λ k. status 204; cancelled = λ k. false }

abbrev before_shutdown : List Event
before_shutdown =
    delivers "http://operator" (some "{}") accepting
    ∷ closes
    ∷ delivers "http://operator" none accepting
    ∷ finishes 0
    ∷ []

abbrev two_deliveries : List Event
two_deliveries =
    delivers "http://operator" (some "{}") accepting
    ∷ finishes 0
    ∷ delivers "http://operator" (some "[]") accepting
    ∷ []

is_closed : (run before_shutdown (new_sender twice)).closed ≡ true
unfolding run perform deliver_payload finish_job take_job
is_closed = refl

is_drained : (run before_shutdown (new_sender twice)).tracked ≡ 0
unfolding run perform deliver_payload finish_job take_job deliver deliver_from post
is_drained = refl

shutdown-IsFinal_example :
    ((run before_shutdown (new_sender twice)).accepted
      ≡ (run before_shutdown (new_sender twice)).ok_count
        + (run before_shutdown (new_sender twice)).dropped_count)
    × IsFinal
        (run before_shutdown (new_sender twice))
        (run two_deliveries (run before_shutdown (new_sender twice)))
shutdown-IsFinal_example =
    shutdown-IsFinal twice before_shutdown two_deliveries is_closed is_drained

shutdown_returns_example :
    ((run
        (closes ∷ finish_all (run two_deliveries (new_sender twice)).jobs)
        (run two_deliveries (new_sender twice))).closed
      ≡ true)
    × ((run
          (closes ∷ finish_all (run two_deliveries (new_sender twice)).jobs)
          (run two_deliveries (new_sender twice))).tracked
        ≡ 0)
shutdown_returns_example = shutdown_returns twice two_deliveries
