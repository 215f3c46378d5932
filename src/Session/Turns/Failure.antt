-- ===== src/Session/Turns/Failure.antt =====
-- internal/session/session.go: a call of `Submit` whose write to the PTY fails.
use mathlib.Core.Path.{subst, subst₂}
use tatara_claude_code_wrapp.Common.{
  ℕ, ◌≡◌, ◌⊎◌, ◌∙◌, sym, refl, Bool, Option, none, some, String, arith, eq_iff, eq_refl, inl, inr,
  ◌+++◌,
}
use tatara_claude_code_wrapp.Session.State.{Manager, ready, Error, write_paste, write_submit}
use tatara_claude_code_wrapp.Session.Submit.{
  admit, refuse, reserve, SubmitInput, submit, submit_slot, submit_writes,
}
use tatara_claude_code_wrapp.Session.Slot.{write, fail_submit_write}
use tatara_claude_code_wrapp.Turn.Records.{running, failed}
use tatara_claude_code_wrapp.Turn.Laws.{status, status-create, status-fail}
use tatara_claude_code_wrapp.Turn.Frame.{error-fail}
use tatara_claude_code_wrapp.Session.Turns.{framed, admit-SameBut, refuse-SameBut, submit-admitted}

-- The error of the write that failed first.
abbrev pub failed_write : Option String → String → Error
failed_write (some paste) e = write_paste e
failed_write none e = write_submit e

-- What a submission answers and leaves behind whose paste or submit keystroke could not be written.
pub record WriteFailed (id : String) (err : Error) (r : Manager × Option Error) : Type 0 where
  pub answered : r.1 ≡ some err
  pub slot : r.0.current ≡ ""
  pub is_ready : r.0.state ≡ ready
  pub last : r.0.last_completed ≡ id
  pub recorded : status id r.0.store ≡ some failed

module _ (text callback_url : String) (x : SubmitInput) where
  status-reserve :
      (k : Manager) → status x.id (reserve x.id text callback_url x.now k).store ≡ some running
  unfolding reserve
  status-reserve k =
      ground (arith, eq_refl x.id, status-create x.id x.id k.store text callback_url x.now)

  fail_reserved :
      (stage e : String) (err : Error) (m1 : Manager)
      → m1.current ≡ x.id
      → status x.id m1.store ≡ some running
      → WriteFailed x.id err (fail_submit_write x.id stage e x.now m1, some err)
  unfolding fail_submit_write
  fail_reserved stage e err m1 held runs = ground (
    arith,
    eq_iff m1.current x.id,
    eq_refl x.id,
    error-fail x.id m1.store (stage +++ ": " +++ e) x.now,
    status-fail x.id x.id m1.store (stage +++ ": " +++ e) x.now,
  )

  writes_failed :
      (p : ℕ) (e : String) (m1 : Manager)
      → m1.current ≡ x.id
      → status x.id m1.store ≡ some running
      → (x.paste_error ≡ some e) ⊎ ((x.paste_error ≡ none) × (x.submit_error ≡ some e))
      → WriteFailed x.id (failed_write x.paste_error e) (submit_writes p text x m1)
  unfolding submit_writes
  writes_failed p e m1 held runs (inl f) =
      subst
        (λ o.
          WriteFailed x.id (failed_write o e)
            (submit_writes p text (record x { paste_error = o }) m1))
        (sym f) (fail_reserved "write pty paste" e (write_paste e) m1 held runs)
  writes_failed p e m1 held runs (inr (ok, f)) =
      subst₂
        (λ o o'.
          WriteFailed x.id (failed_write o e)
            (submit_writes p text (record x { paste_error = o; submit_error = o' }) m1))
        (sym ok) (sym f)
        (fail_reserved "write pty submit" e (write_submit e) (write p (framed m1 text) none m1) held
          runs)

  slot_failed :
      (p : ℕ) (e : String) (k : Manager)
      → refuse k ≡ none
      → k.w ≡ some p
      → (x.paste_error ≡ some e) ⊎ ((x.paste_error ≡ none) × (x.submit_error ≡ some e))
      → WriteFailed x.id (failed_write x.paste_error e) (submit_slot text callback_url x k)
  unfolding submit_slot
  slot_failed p e k free has f =
      rw (free, submit_slot)
        (rw has
          (writes_failed p e (reserve x.id text callback_url x.now k) refl (status-reserve k) f))

-- A submission that is admitted to a free session and whose paste or submit keystroke cannot be
-- written returns the error of the one of the two that failed first, records the turn as failed,
-- and leaves the session ready with the slot free.
pub submit-WriteFailed :
    (text callback_url : String) (handoff : Bool) (x : SubmitInput) (p : ℕ) (e : String)
    (m : Manager)
    → (admit handoff x.admit_now m).1 ≡ none
    → refuse m ≡ none
    → m.w ≡ some p
    → (x.paste_error ≡ some e) ⊎ ((x.paste_error ≡ none) × (x.submit_error ≡ some e))
    → WriteFailed x.id (failed_write x.paste_error e) (submit text callback_url handoff x m)
submit-WriteFailed text u handoff x p e m admitted free has f =
    let k = (admit handoff x.admit_now m).0 in
    let s = admit-SameBut handoff x.admit_now m in
    rw (submit-admitted text u handoff x m admitted)
      (slot_failed text u x p e k (refuse-SameBut s free) (s.w ∙ has) f)
