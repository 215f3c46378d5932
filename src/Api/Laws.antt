-- ===== src/Api/Laws.antt =====
-- internal/httpapi/messages.go: what a request for a turn leaves behind, by its answer.
use mathlib.Core.Path.{subst}
use tatara_claude_code_wrapp.Common.{
  ◌≡◌, ◌≢◌, ◌⊎◌, ◌∙◌, refl, Bool, false, Option, none, some, String, Time, is_empty, eq_iff, arith,
  Option-cases, Bool-cases, inl, inr, ap,
}
use tatara_claude_code_wrapp.Session.State.{Manager, Error}
use tatara_claude_code_wrapp.Session.Submit.{
  SubmitInput, submit, admit, refuse, submit_slot, submit_writes, after_admit,
}
use tatara_claude_code_wrapp.Api.{
  Parsers, Address, validate_callback_url, refuse_host, PostMessageReq, Response, post_message,
  submitted, answer, answered, submit_status,
}

-- A callback that is not empty goes to an http or https URL, to a host that is not `localhost` and
-- not a literal address of a loopback, unspecified, link-local or private range.
abbrev pub IsSafe : Parsers → String → Type 0
IsSafe parsers raw =
    (raw ≡ "")
    ⊎ ((scheme : String) × (host : String) × (parsers.parse_url raw ≡ some (scheme, host))
        × ((scheme ≡ "https") ⊎ (scheme ≡ "http"))
        × (host ≢ "localhost")
        × ((ip : Address)
            → parsers.parse_ip host ≡ some ip
            → (ip.is_loopback ≡ false)
              × (ip.is_unspecified ≡ false)
              × (ip.is_link_local ≡ false)
              × (ip.is_private ≡ false)))

module _ (parsers : Parsers) where
  refuse_host_safe :
      (host : String) (ip : Address)
      → refuse_host parsers host ≡ none
      → parsers.parse_ip host ≡ some ip
      → (ip.is_loopback ≡ false)
        × (ip.is_unspecified ≡ false)
        × (ip.is_link_local ≡ false)
        × (ip.is_private ≡ false)
  unfolding refuse_host
  refuse_host_safe host ip e f = ground (arith, e, f)

  refuse_host_local : (host : String) → refuse_host parsers host ≡ none → host ≢ "localhost"
  unfolding refuse_host
  refuse_host_local host e = ground (arith, e, eq_iff host "localhost")

  valid_url :
      (raw scheme host : String)
      → parsers.parse_url raw ≡ some (scheme, host)
      → raw ≢ ""
      → validate_callback_url parsers raw ≡ none
      → ((scheme ≡ "https") ⊎ (scheme ≡ "http")) × (refuse_host parsers host ≡ none)
  unfolding validate_callback_url
  valid_url raw scheme host p h e =
      ground (arith, p, h, e, eq_iff raw "", eq_iff scheme "https", eq_iff scheme "http")

  parsed :
      (raw : String)
      → raw ≢ ""
      → validate_callback_url parsers raw ≡ none
      → parsers.parse_url raw ≢ none
  unfolding validate_callback_url
  parsed raw h e = ground (arith, h, e, eq_iff raw "")

  validate-IsSafe : (raw : String) → validate_callback_url parsers raw ≡ none → IsSafe parsers raw
  validate-IsSafe raw e = elim (Bool-cases (is_empty raw)) [
    | inl empty ↦ inl (ground (arith, empty, eq_iff raw ""))
    | inr full ↦
        let h : raw ≢ "" = ground (arith, full, eq_iff raw "") in
        elim (Option-cases (parsers.parse_url raw)) [
          | inl gone ↦ absurd (parsed raw h e gone)
          | inr ((scheme, host), p) ↦
              let v = valid_url raw scheme host p h e in
              inr (
                scheme,
                host,
                p,
                v.0,
                refuse_host_local host v.1,
                λ ip f. refuse_host_safe host ip v.1 f,
              )
        ]
  ]

-- A request is refused as it is, and the session is as it was; or it has a text and a safe callback,
-- and it is the session that answers it.
pub data Screened (parsers : Parsers) (req : PostMessageReq) (x : SubmitInput) (m : Manager)
    (r : Manager × Response) : Type 0 where
  turned_away :
      (req.text ≡ "") ⊎ (validate_callback_url parsers req.callback_url ≢ none)
      → r ≡ (m, answer 400)
      → Screened parsers req x m r
  passed :
      req.text ≢ ""
      → IsSafe parsers req.callback_url
      → r.0 ≡ (submit req.text req.callback_url req.handoff x m).0
      → r.1 ≡ answered x (submit req.text req.callback_url req.handoff x m).1
      → Screened parsers req x m r

submitted-Screened :
    (parsers : Parsers) (req : PostMessageReq) (x : SubmitInput) (m : Manager)
    → req.text ≢ ""
    → Screened parsers req x m (submitted parsers req x m)
unfolding submitted
submitted-Screened parsers req x m full =
    elim (Option-cases (validate_callback_url parsers req.callback_url)) [
      | inl fine ↦
          rw (fine, submitted)
            (passed full (validate-IsSafe parsers req.callback_url fine) refl refl)
      | inr (e, bad) ↦ rw (bad, submitted) (turned_away (inr (λ fine. absurd cc)) refl)
    ]

-- A request for a turn whose text is empty or whose callback is refused is answered 400 and leaves the
-- session exactly as it was. Any other has a text and a safe callback, and is submitted to the session
-- with them, which decides the answer.
pub post_message-Screened :
    (parsers : Parsers) (req : PostMessageReq) (x : SubmitInput) (m : Manager)
    → Screened parsers req x m (post_message parsers (some req) x m)
unfolding post_message
post_message-Screened parsers req x m = elim (Bool-cases (is_empty req.text)) [
  | inl empty ↦
      rw (empty, post_message) (turned_away (inl (ground (arith, empty, eq_iff req.text ""))) refl)
  | inr full ↦
      rw (full, post_message)
        (submitted-Screened parsers req x m (ground (arith, full, eq_iff req.text "")))
]

-- The turns, the slot and the terminal are as they were.
pub record Untouched (m n : Manager) : Type 0 where
  pub store : n.store ≡ m.store
  pub current : n.current ≡ m.current
  pub state : n.state ≡ m.state
  pub wire : n.wire ≡ m.wire

Untouched-self : (m : Manager) → Untouched m m
Untouched-self m = record { store = refl; current = refl; state = refl; wire = refl }

admit-Untouched : (handoff : Bool) (now : Time) (m : Manager) → Untouched m (admit handoff now m).0
unfolding admit
admit-Untouched handoff now m = ground arith

Untouched-trans : {m n k : Manager} → Untouched m n → Untouched n k → Untouched m k
Untouched-trans a b = ground arith

slot_refused-Untouched :
    (text u : String) (x : SubmitInput) (m : Manager) (e : Error)
    → (submit_slot text u x m).1 ≡ some e
    → submit_status e ≢ 503
    → Untouched m (submit_slot text u x m).0
unfolding submit_slot refuse submit_writes
slot_refused-Untouched text u x m e f h = ground (arith, f, h)

after_refused-Untouched :
    (text u : String) (x : SubmitInput) (a : Manager × Option Error) (e : Error)
    → (after_admit text u x a).1 ≡ some e
    → submit_status e ≢ 503
    → Untouched a.0 (after_admit text u x a).0
unfolding after_admit
after_refused-Untouched text u x (m, some y) e f h = ground arith
after_refused-Untouched text u x (m, none) e f h = slot_refused-Untouched text u x m e f h

submit_refused-Untouched :
    (text u : String) (handoff : Bool) (x : SubmitInput) (m : Manager) (e : Error)
    → (submit text u handoff x m).1 ≡ some e
    → submit_status e ≢ 503
    → Untouched m (submit text u handoff x m).0
unfolding submit
submit_refused-Untouched text u handoff x m e f h =
    Untouched-trans (admit-Untouched handoff x.admit_now m)
      (after_refused-Untouched text u x (admit handoff x.admit_now m) e f h)

submitted-Untouched :
    (parsers : Parsers) (req : PostMessageReq) (x : SubmitInput) (m : Manager)
    → (submitted parsers req x m).1.status ≢ 202
    → (submitted parsers req x m).1.status ≢ 503
    → Untouched m (submitted parsers req x m).0
unfolding submitted
submitted-Untouched parsers req x m h k =
    elim (Option-cases (validate_callback_url parsers req.callback_url)) [
      | inr (e, bad) ↦ rw (bad, submitted) (Untouched-self m)
      | inl fine ↦
          let r = submit req.text req.callback_url req.handoff x m in
          let sent : submitted parsers req x m ≡ (r.0, answered x r.1) = rw (fine, submitted) in
          elim (Option-cases r.1) [
            | inl took ↦ absurd (h (ap (λ (b : Manager × Response). b.1.status) sent ∙ rw took))
            | inr (e, refused) ↦
                rw (fine, submitted)
                  (submit_refused-Untouched req.text req.callback_url req.handoff x m e refused
                    (λ s. k (ap (λ (b : Manager × Response). b.1.status) sent ∙ rw (refused, s))))
          ]
    ]

-- A request for a turn that is answered neither 202 nor 503 has created no turn, taken no slot and
-- written nothing to the terminal.
pub post_message-Untouched :
    (parsers : Parsers) (req : Option PostMessageReq) (x : SubmitInput) (m : Manager)
    → (post_message parsers req x m).1.status ≢ 202
    → (post_message parsers req x m).1.status ≢ 503
    → Untouched m (post_message parsers req x m).0
unfolding post_message
post_message-Untouched parsers none x m h k = Untouched-self m
post_message-Untouched parsers (some req) x m h k = elim (Bool-cases (is_empty req.text)) [
  | inl empty ↦ rw (empty, post_message) (Untouched-self m)
  | inr full ↦
      let e : post_message parsers (some req) x m ≡ submitted parsers req x m =
        rw (full, post_message) in
      rw (full, post_message)
        (submitted-Untouched parsers req x m
          (subst (λ (b : Manager × Response). b.1.status ≢ 202) e h)
          (subst (λ (b : Manager × Response). b.1.status ≢ 503) e k))
]
