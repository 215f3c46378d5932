-- ===== src/Api.antt =====
-- internal/httpapi: what the handlers answer, and what they do to the session. The parsers of a URL
-- and of an address (`net/url`, `net`) and the JSON decoder of a body are parameters.
pub mod Laws
mod Examples
use tatara_claude_code_wrapp.Common.{
  ℕ, ◌+◌, ◌&&◌, ◌||◌, not, Bool, true, false, Option, none, some, String, Time, is_empty,
  if◌then◌else◌, str_eq,
}
use tatara_claude_code_wrapp.Session.State.{
  Error, pod_ttl_expired, session_busy, HookResult, Manager,
}
use tatara_claude_code_wrapp.Session.Submit.{SubmitInput, submit}
use tatara_claude_code_wrapp.Session.Hook.{complete}
use tatara_claude_code_wrapp.Session.Control.{interrupt}
use tatara_claude_code_wrapp.Turn.Records.{Record}
use tatara_claude_code_wrapp.Turn.Store

-- What `net.IP` says of an address.
pub record Address : Type 0 where
  pub is_loopback : Bool
  pub is_unspecified : Bool
  pub is_link_local : Bool
  pub is_private : Bool

-- The scheme and the host name of a URL, and the address that a host name is a literal of.
pub record Parsers : Type 0 where
  pub parse_url : String → Option (String × String)
  pub parse_ip : String → Option Address

pub data CallbackError : Type 0 where
  invalid_url bad_scheme loopback unspecified link_local private_range : CallbackError

abbrev pub refuse_address : Address → Option CallbackError
refuse_address ip =
    if ip.is_loopback
    then some loopback
    else if ip.is_unspecified
    then some unspecified
    else if ip.is_link_local
    then some link_local
    else if ip.is_private
    then some private_range
    else none

unfoldable pub refuse_host : Parsers → String → Option CallbackError
refuse_host parsers host =
    if str_eq host "localhost"
    then some loopback
    else elim (parsers.parse_ip host) [ none ↦ none | some ip ↦ refuse_address ip ]

unfoldable pub validate_callback_url : Parsers → String → Option CallbackError
unfolding refuse_host
validate_callback_url parsers raw = if is_empty raw then none else elim (parsers.parse_url raw) [
  | none ↦ some invalid_url
  | some (scheme, host) ↦
      if not (str_eq scheme "https") && not (str_eq scheme "http")
      then some bad_scheme
      else refuse_host parsers host
]

pub record PostMessageReq : Type 0 where
  pub text : String
  pub callback_url : String
  pub handoff : Bool

-- The status, and the id of the turn if the body carries one.
pub record Response : Type 0 where
  pub status : ℕ
  pub turn_id : Option String

abbrev pub answer : ℕ → Response
answer status = record { status = status; turn_id = none }

abbrev pub submit_status : Error → ℕ
submit_status pod_ttl_expired = 410
submit_status session_busy = 409
submit_status _ = 503

abbrev pub answered : SubmitInput → Option Error → Response
answered x none = record { status = 202; turn_id = some x.id }
answered x (some e) = answer (submit_status e)

unfoldable pub submitted : Parsers → PostMessageReq → SubmitInput → Manager → Manager × Response
unfolding validate_callback_url
submitted parsers req x m = elim (validate_callback_url parsers req.callback_url) [
  | some e ↦ (m, answer 400)
  | none ↦ let r = submit req.text req.callback_url req.handoff x m in (r.0, answered x r.1)
]

-- `req` is nothing if the body does not decode.
unfoldable pub post_message :
    Parsers → Option PostMessageReq → SubmitInput → Manager → Manager × Response
unfolding submitted
post_message parsers req x m = elim req [
  | none ↦ (m, answer 400)
  | some req ↦ if is_empty req.text then (m, answer 400) else submitted parsers req x m
]

unfoldable pub get_message : String → Manager → ℕ × Option Record
get_message id m = elim (Store.get id m.store) [ none ↦ (404, none) | some r ↦ (200, some r) ]

-- The hook's report; nothing is a body that does not decode.
unfoldable pub turn_complete : Option HookResult → Time → Manager → Manager × Response
turn_complete res now m = elim res [
  | none ↦ (
    record m { metrics = record (m.metrics) { hook_bad_payload = m.metrics.hook_bad_payload + 1 } },
    answer 400,
  )
  | some r ↦
      let (m', err) = complete r now m in
      elim err [ none ↦ (m', answer 204) | some e ↦ (m', answer 409) ]
]

unfoldable pub post_interrupt : Option String → Manager → Manager × Response
post_interrupt write_error m =
    let (m', err) = interrupt write_error m in
    elim err [
      | some e ↦ (m', answer 503)
      | none ↦ (m', record { status = 202; turn_id = some m.current })
    ]
