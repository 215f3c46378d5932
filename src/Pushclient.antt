-- ===== src/Pushclient.antt =====
-- internal/pushclient/pushclient.go: the pushes of the metrics to the operator. The registry, the
-- encoder of a family, the encoding of a query, and HTTP are parameters; the logs are left out. A
-- duration is an `int64` of nanoseconds, as an integer.
pub mod Own
pub mod Laws
mod Examples
use text.Mathlib.Text.{starts_with, find?}
use tatara_claude_code_wrapp.Common.{
  ℕ, zero, suc, ◌+◌, ◌&&◌, not, Bool, true, false, List, [], ◌∷◌, ◌++◌, Option, none, some, String,
  if◌then◌else◌, is_empty, ltb, ◌+++◌,
}
use tatara_claude_code_wrapp.Common.Int.{ℤ, pos, negsuc}

pub record Config : Type 0 where
  pub url : String
  pub run_id : String
  pub pod : String
  pub job : String
  pub interval : ℤ

abbrev pub interval_or_default : ℤ → ℤ
interval_or_default (pos n) = if ltb 0 n then pos n else pos 15000000000
interval_or_default (negsuc n) = pos 15000000000

-- `New`.
unfoldable pub with_defaults : Config → Config
with_defaults cfg = record cfg {
  job = if is_empty cfg.job then "tatara-claude-code-wrapper" else cfg.job;
  interval = interval_or_default cfg.interval;
}

unfoldable pub enabled : Config → Bool
enabled cfg = not (is_empty cfg.url) && not (is_empty cfg.run_id)

abbrev pub pod_values : String → List (String × String)
pod_values pod = if is_empty pod then [] else ("pod", pod) ∷ []

abbrev pub separator : Option ℕ → String
separator none = "?"
separator (some i) = "&"

-- `encode_query` is that of `url.Values`, which sorts by key.
unfoldable pub endpoint : (List (String × String) → String) → Config → String
endpoint encode_query cfg =
    cfg.url
    +++ separator (find? cfg.url "?")
    +++ encode_query (("job", cfg.job) ∷ pod_values cfg.pod ++ ("run_id", cfg.run_id) ∷ [])

abbrev pub push_allowed_prefixes : List String
push_allowed_prefixes = "ccw_" ∷ "tatara_wrapper_" ∷ []

unfoldable pub has_prefix : List String → String → Bool
has_prefix [] name = false
has_prefix (p ∷ ps) name =
    let rest = has_prefix ps name in if starts_with name p then true else rest

unfoldable pub allowed_family : String → Bool
unfolding has_prefix
allowed_family name = has_prefix push_allowed_prefixes name

-- `text` is what the encoder writes for the family, if it can.
pub record Family : Type 0 where
  pub name : String
  pub text : Option String

unfoldable pub keep_allowed : List Family → List Family
unfolding allowed_family
keep_allowed [] = []
keep_allowed (f ∷ fs) =
    let rest = keep_allowed fs in if allowed_family f.name then f ∷ rest else rest

-- What is gathered, if that works.
abbrev pub Gathered : Type 0
Gathered = Option (List Family)

unfoldable pub allowlisted : Gathered → Gathered
unfolding keep_allowed
allowlisted none = none
allowlisted (some fs) = some (keep_allowed fs)

abbrev pub prepend : String → Option String → Option String
prepend text none = none
prepend text (some rest) = some (text +++ rest)

abbrev pub encoded : Option String → Option String → Option String
encoded none rest = none
encoded (some text) rest = prepend text rest

unfoldable pub encode_families : List Family → Option String
encode_families [] = some ""
encode_families (f ∷ fs) = encoded f.text (encode_families fs)

unfoldable pub encode : Gathered → Option String
unfolding encode_families
encode none = none
encode (some fs) = encode_families fs

-- What a push meets: the registry, whether a request can be made, and the status of its answer.
pub record Reads : Type 0 where
  pub gathered : Gathered
  pub makes_request : Bool
  pub answer : Option ℕ

-- The label of `MetricPushTotal`.
pub data Result : Type 0 where
  encode_fail transport_fail rejected ok : Result

-- What reached the HTTP client: a push of a body, or a delete, to an address.
pub data Request : Type 0 where
  push : String → String → Request
  delete : String → Request

-- `metrics` is whether the pusher has the counter, and `pushes` the labels that it counted.
pub record Pusher : Type 0 where
  pub cfg : Config
  pub metrics : Bool
  pub requests : List Request
  pub pushes : List Result

abbrev pub result_of : Option ℕ → Result
result_of none = transport_fail
result_of (some status) = if ltb status 300 then ok else rejected

abbrev pub counted : Result → Pusher → Pusher
counted r p = if p.metrics then record p { pushes = p.pushes ++ r ∷ [] } else p

abbrev pub send : Request → Pusher → Pusher
send r p = record p { requests = p.requests ++ r ∷ [] }

module _ (encode_query : List (String × String) → String) where
  abbrev pub push_body : Reads → Option String → Pusher → Pusher
  push_body x none p = counted encode_fail p
  push_body x (some body) p =
      if x.makes_request
      then counted (result_of x.answer) (send (push (endpoint encode_query p.cfg) body) p)
      else counted encode_fail p

  unfoldable pub push_once : Reads → Pusher → Pusher
  unfolding endpoint encode allowlisted
  push_once x p = push_body x (encode (allowlisted x.gathered)) p

  -- The loop: a push at once, and one for each tick before the context ends.
  unfoldable pub push_all : List Reads → Pusher → Pusher
  unfolding push_once
  push_all [] p = p
  push_all (x ∷ xs) p = push_all xs (push_once x p)

  -- `makes_request` is whether the request of the delete can be made.
  unfoldable pub delete_series : Bool → Pusher → Pusher
  unfolding endpoint
  delete_series makes_request p =
      if makes_request then send (delete (endpoint encode_query p.cfg)) p else p

  unfoldable pub start : Reads → List Reads → Pusher → Pusher
  unfolding push_all enabled
  start first ticks p = if enabled p.cfg then push_all (first ∷ ticks) p else p

  -- It waits for the loop, so nothing is pushed behind the delete.
  unfoldable pub shutdown : Bool → Pusher → Pusher
  unfolding delete_series enabled
  shutdown makes_request p = if enabled p.cfg then delete_series makes_request p else p

abbrev pub new : Config → Bool → Pusher
new cfg metrics = record { cfg = with_defaults cfg; metrics = metrics; requests = []; pushes = [] }
