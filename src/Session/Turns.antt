-- ===== src/Session/Turns.antt =====
-- internal/session/session.go: a call of `Submit` from its admission to its answer.
pub mod Failure
use mathlib.Core.List.{append_assoc}
use mathlib.Core.Path.{subst, subst₂}
use tatara_claude_code_wrapp.Common.{
  ℕ, ◌+◌, ◌≡◌, ◌≢◌, ◌⊎◌, ◌++◌, ◌∙◌, ap, sym, refl, Bool, true, false, List, [], ◌∷◌, Option, none,
  some, String, Time, arith, is_empty, if◌then◌else◌, str_eq, eq_iff, eq_refl, Bool-cases,
  Option-cases, inl, inr, ◌+++◌, lookup, lookup-insert,
}
use tatara_claude_code_wrapp.Session.State.{
  Manager, State, booting, ready, busy, dead, Error, write_paste, write_submit, nil_writer, Timer,
}
use tatara_claude_code_wrapp.Session.Submit.{
  admit, refuse, reserve, install_timer, ensure_tailer_following, SubmitInput, submit, submit_slot,
  submit_writes, after_admit,
}
use tatara_claude_code_wrapp.Session.Slot.{write, fail_submit_write}
use tatara_claude_code_wrapp.Session.Upkeep.{IsKept, has_writer}
use tatara_claude_code_wrapp.Turn.Records.{running, failed}
use tatara_claude_code_wrapp.Turn.Store
use tatara_claude_code_wrapp.Turn.Store.{fresh}
use tatara_claude_code_wrapp.Turn.Laws.{status, status-create, status-fail}
use tatara_claude_code_wrapp.Turn.Frame.{error-fail}

-- All of a manager that a submission starts from, but the handoff flag.
pub record SameBut (m n : Manager) : Type 0 where
  pub cfg : n.cfg ≡ m.cfg
  pub store : n.store ≡ m.store
  pub w : n.w ≡ m.w
  pub wire : n.wire ≡ m.wire
  pub state : n.state ≡ m.state
  pub current : n.current ≡ m.current

pub admit-SameBut : (handoff : Bool) (now : Time) (m : Manager) → SameBut m (admit handoff now m).0
unfolding admit
admit-SameBut handoff now m = ground arith

pub refuse-SameBut : {m n : Manager} → SameBut m n → refuse m ≡ none → refuse n ≡ none
unfolding refuse
refuse-SameBut s e = ground arith

slot_panic_free :
    (text callback_url : String) (x : SubmitInput) (m : Manager)
    → IsKept m
    → (submit_slot text callback_url x m).1 ≢ some nil_writer
unfolding submit_slot refuse submit_writes
slot_panic_free text u x m k = ground arith

after_admit_panic_free :
    (text callback_url : String) (x : SubmitInput) (a : Manager × Option Error)
    → IsKept a.0
    → a.1 ≢ some nil_writer
    → (after_admit text callback_url x a).1 ≢ some nil_writer
unfolding after_admit
after_admit_panic_free text u x (m, some e) k h = h
after_admit_panic_free text u x (m, none) k h = slot_panic_free text u x m k

admit-IsKept :
    (handoff : Bool) (now : Time) (m : Manager) → IsKept m → IsKept (admit handoff now m).0
unfolding admit
admit-IsKept handoff now m k = ground arith

admit_panic_free :
    (handoff : Bool) (now : Time) (m : Manager) → (admit handoff now m).1 ≢ some nil_writer
unfolding admit
admit_panic_free handoff now m = ground arith

-- A submission to a session that is kept never writes through a nil writer.
pub submit_panic_free :
    (text callback_url : String) (handoff : Bool) (x : SubmitInput) (m : Manager)
    → IsKept m
    → (submit text callback_url handoff x m).1 ≢ some nil_writer
unfolding submit
submit_panic_free text u handoff x m k =
    after_admit_panic_free text u x (admit handoff x.admit_now m)
      (admit-IsKept handoff x.admit_now m k) (admit_panic_free handoff x.admit_now m)

pub submit-admitted :
    (text callback_url : String) (handoff : Bool) (x : SubmitInput) (m : Manager)
    → (admit handoff x.admit_now m).1 ≡ none
    → submit text callback_url handoff x m
      ≡ submit_slot text callback_url x (admit handoff x.admit_now m).0
unfolding submit
submit-admitted text u handoff x m e = step (admit handoff x.admit_now m) e
  where
    step :
        (a : Manager × Option Error)
        → a.1 ≡ none
        → after_admit text u x a ≡ submit_slot text u x a.0
    step (n, none) h = unfold after_admit in refl
    step (n, some y) h = cc

-- The paste, as it goes over the wire.
abbrev pub framed : Manager → String → String
framed m text = m.cfg.submit_seq.paste_start +++ text +++ m.cfg.submit_seq.paste_end

-- What a submission that was accepted leaves behind.
pub record Accepted (text callback_url : String) (x : SubmitInput) (p : ℕ) (m : Manager)
    (r : Manager × Option Error) : Type 0 where
  pub answered : r.1 ≡ none
  pub slot : r.0.current ≡ x.id
  pub is_busy : r.0.state ≡ busy
  pub recorded : Store.get x.id r.0.store ≡ some (fresh x.id text callback_url x.now)
  pub sent : r.0.wire ≡ m.wire ++ (p, framed m text) ∷ (p, m.cfg.submit_seq.submit) ∷ []
  pub timed :
      r.0.timer ≡ some (record { turn = x.id; due = some (x.timer_now + m.cfg.turn_timeout) })

module _ (text callback_url : String) (x : SubmitInput) (p : ℕ) (m : Manager) where
  get-reserve :
      Store.get x.id (reserve x.id text callback_url x.now m).store
      ≡ some (fresh x.id text callback_url x.now)
  unfolding reserve Store.get Store.create
  get-reserve = ground (
    arith,
    eq_refl x.id,
    lookup-insert x.id x.id (fresh x.id text callback_url x.now) m.store.by_id,
  )

  slot-Accepted :
      refuse m ≡ none
      → m.w ≡ some p
      → x.paste_error ≡ none
      → x.submit_error ≡ none
      → Accepted text callback_url x p m (submit_slot text callback_url x m)
  unfolding submit_slot reserve submit_writes install_timer ensure_tailer_following
  slot-Accepted free has pasted sent = ground (
    arith,
    free,
    has,
    get-reserve,
    append_assoc m.wire ((p, framed m text) ∷ []) ((p, m.cfg.submit_seq.submit) ∷ []),
  )

-- A submission that is admitted to a free session, and whose two writes succeed, returns no error:
-- its turn holds the slot of a busy session, is recorded as running with its text and callback, the
-- paste and the submit keystroke were sent to the process and nothing else, and its inactivity timer
-- is armed.
pub submit-Accepted :
    (text callback_url : String) (handoff : Bool) (x : SubmitInput) (p : ℕ) (m : Manager)
    → (admit handoff x.admit_now m).1 ≡ none
    → refuse m ≡ none
    → m.w ≡ some p
    → x.paste_error ≡ none
    → x.submit_error ≡ none
    → Accepted text callback_url x p m (submit text callback_url handoff x m)
submit-Accepted text u handoff x p m admitted free has pasted sent =
    let k = (admit handoff x.admit_now m).0 in
    let s = admit-SameBut handoff x.admit_now m in
    rw (submit-admitted text u handoff x m admitted)
      (Accepted_from s (slot-Accepted text u x p k (refuse-SameBut s free) (s.w ∙ has) pasted sent))
  where
    Accepted_from :
        {k : Manager} {r : Manager × Option Error}
        → SameBut m k
        → Accepted text u x p k r
        → Accepted text u x p m r
    Accepted_from s a = ground (arith, a.sent, a.timed, s.cfg, s.wire)
