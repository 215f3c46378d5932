-- ===== src/Webhook/Sender.antt =====
-- internal/webhook/webhook.go: the Sender, whose deliveries run on goroutines of their own, and its
-- Shutdown. HTTP, JSON and HMAC are parameters; the logs are left out.
use tatara_claude_code_wrapp.Common.{
  ℕ, zero, suc, ◌+◌, Bool, true, false, List, [], ◌∷◌, Option, none, some, String, if◌then◌else◌,
  is_empty, ltb, ◌+++◌,
}
use tatara_claude_code_wrapp.Webhook.{Config, Network, Outcome, ok, dropped, deliver}

-- What a request meets.
pub data Response : Type 0 where
  no_request no_response : Response
  status : ℕ → Response

unfoldable pub post : Response → Bool
post no_request = false
post no_response = false
post (status code) = ltb code 300

-- The header of the signature; `hex_hmac` is that of a secret and a body.
unfoldable pub signature : (String → String → String) → String → String → Option String
signature hex_hmac secret body =
    if is_empty secret then none else some ("sha256=" +++ hex_hmac secret body)

-- What the attempts of one delivery meet.
pub record Attempts : Type 0 where
  pub responses : ℕ → Response
  pub cancelled : ℕ → Bool

abbrev pub network_of : Attempts → Network
network_of x = record { posted = λ n. post (x.responses n); cancelled = x.cancelled }

-- `jobs` are the deliveries that run, and `tracked` the count of the wait group. `accepted` counts the
-- calls that were let in.
pub record Sender : Type 0 where
  pub cfg : Config
  pub closed : Bool
  pub cancelled : Bool
  pub tracked : ℕ
  pub jobs : List Attempts
  pub accepted : ℕ
  pub ok_count : ℕ
  pub dropped_count : ℕ

abbrev pub new_sender : Config → Sender
new_sender cfg = record {
  cfg = cfg;
  closed = false;
  cancelled = false;
  tracked = 0;
  jobs = [];
  accepted = 0;
  ok_count = 0;
  dropped_count = 0;
}

abbrev pub count : Outcome → Sender → Sender
count ok s = record s { ok_count = s.ok_count + 1 }
count dropped s = record s { dropped_count = s.dropped_count + 1 }

-- `wg.Add(1)` and `wg.Done()`.
abbrev pub enter : Sender → Sender
enter s = record s { tracked = s.tracked + 1; accepted = s.accepted + 1 }

abbrev pub leave : Sender → Sender
leave s = elim s.tracked [ zero ↦ s | suc n ↦ record s { tracked = n } ]

-- `body` is the payload, if it can be marshalled.
unfoldable pub deliver_payload : String → Option String → Attempts → Sender → Sender
deliver_payload url body x s = if is_empty url then s else if s.closed then s else (elim body [
  | none ↦ leave (count dropped (enter s))
  | some b ↦ let s1 = enter s in record s1 { jobs = x ∷ s1.jobs }
])

-- `Deliver`: the record, if there is one, and its encoding, if it can be marshalled.
abbrev pub deliver_record : String → Option (Option String) → Attempts → Sender → Sender
deliver_record url none x s = s
deliver_record url (some body) x s = deliver_payload url body x s

-- The goroutine at a place runs its delivery to the end.
unfoldable pub take_job : ℕ → List Attempts → Option (Attempts × List Attempts)
take_job i [] = none
take_job zero (x ∷ xs) = some (x, xs)
take_job (suc i) (x ∷ xs) = elim (take_job i xs) [ none ↦ none | some p ↦ some (p.0, x ∷ p.1) ]

abbrev pub finish : Option (Attempts × List Attempts) → Sender → Sender
finish none s = s
finish (some (x, rest)) s =
    leave (count (deliver (network_of x) s.cfg).outcome (record s { jobs = rest }))

unfoldable pub finish_job : ℕ → Sender → Sender
unfolding take_job deliver post
finish_job i s = finish (take_job i s.jobs) s

-- `Shutdown` closes the sender first, may cancel, and returns once nothing is tracked.
pub data Event : Type 0 where
  delivers : String → Option String → Attempts → Event
  finishes : ℕ → Event
  closes : Event
  cancels : Event

unfoldable pub perform : Event → Sender → Sender
unfolding deliver_payload finish_job
perform (delivers url body x) s = deliver_payload url body x s
perform (finishes i) s = finish_job i s
perform closes s = record s { closed = true }
perform cancels s = record s { cancelled = true }

unfoldable pub run : List Event → Sender → Sender
unfolding perform
run [] s = s
run (e ∷ es) s = run es (perform e s)
