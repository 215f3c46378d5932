-- ===== src/Webhook.antt =====
-- internal/webhook/webhook.go: the delivery of a callback, with its retries. A duration is an
-- `int64` of nanoseconds, as its two's complement below 2 ^ 64.
pub mod Laws
pub mod Sender
pub mod Drained
pub mod Returns
mod Examples
use tatara_claude_code_wrapp.Common.{
  ℕ, zero, suc, ◌+◌, ◌*◌, ◌%◌, ◌^◌, ◌&&◌, Bool, true, false, List, [], ◌∷◌, String, if◌then◌else◌,
  ltb, is_empty,
}
use tatara_claude_code_wrapp.Common.Int.{ℤ, pos, negsuc}

abbrev pub second : ℕ
second = 1000000000

-- `maxBackoff`.
abbrev pub max_backoff : ℕ
max_backoff = 60 * second

-- `Retries` and `Backoff`; the secret is read by the request alone.
pub record Config : Type 0 where
  pub retries : ℤ
  pub backoff : ℕ

-- `d <= 0` and `d > e` on two's complements.
abbrev pub is_negative : ℕ → Bool
is_negative d = if ltb d (2 ^ 63) then false else true

abbrev pub exceeds : ℕ → ℕ → Bool
exceeds d e = ltb d (2 ^ 63) && ltb e d

-- `New`.
unfoldable pub with_backoff : Config → Config
with_backoff cfg = record cfg {
  backoff =
      if is_negative cfg.backoff then second else if ltb 0 cfg.backoff then cfg.backoff else second;
}

unfoldable pub next_backoff : ℕ → ℕ
next_backoff backoff =
    let doubled = (2 * backoff) % 2 ^ 64 in
    if exceeds doubled max_backoff then max_backoff else doubled

-- The label of `WebhookDelivery`.
pub data Outcome : Type 0 where
  ok dropped : Outcome

-- The attempts that were made, and the waits between them.
pub record Delivery : Type 0 where
  pub outcome : Outcome
  pub attempts : ℕ
  pub waits : List ℕ

-- What the requests meet: whether the attempt of a number succeeds, and whether the wait after it
-- ends by the cancelled context.
pub record Network : Type 0 where
  pub posted : ℕ → Bool
  pub cancelled : ℕ → Bool

abbrev pub waited : ℕ → Delivery → Delivery
waited backoff d = record d { attempts = d.attempts + 1; waits = backoff ∷ d.waits }

-- The loop from the attempt `attempt`, with `left` retries left behind it.
unfoldable pub deliver_from : Network → ℕ → ℕ → ℕ → Delivery
unfolding next_backoff
deliver_from net zero attempt backoff =
    if net.posted attempt
    then record { outcome = ok; attempts = 1; waits = [] }
    else record { outcome = dropped; attempts = 1; waits = [] }
deliver_from net (suc left) attempt backoff =
    let rest = deliver_from net left (attempt + 1) (next_backoff backoff) in
    if net.posted attempt
    then record { outcome = ok; attempts = 1; waits = [] }
    else if net.cancelled attempt
    then record { outcome = dropped; attempts = 1; waits = [] }
    else waited backoff rest

-- No attempt is made if the number of retries is negative.
unfoldable pub deliver : Network → Config → Delivery
unfolding deliver_from
deliver net cfg = elim cfg.retries [
  | pos n ↦ deliver_from net n 0 cfg.backoff
  | negsuc n ↦ record { outcome = dropped; attempts = 0; waits = [] }
]
