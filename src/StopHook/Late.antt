-- ===== src/StopHook/Late.antt =====
-- cmd/cc-stop-hook/main.go with internal/session/session.go: a retry that reaches the session when it
-- has taken its next turn.
use tatara_claude_code_wrapp.Common.{
  ℕ, zero, suc, ◌≡◌, ◌∙◌, refl, ap, true, false, none, some, Time, is_empty, lookup, lookup-insert,
  eq_refl, sym, arith,
}
use tatara_claude_code_wrapp.Session.State.{HookResult, Manager, busy}
use tatara_claude_code_wrapp.Session.Hook.{complete, reject, take_report, finish, count_complete}
use tatara_claude_code_wrapp.Session.Slot.{clear_current_locked, fire_done, meter_tokens}
use tatara_claude_code_wrapp.Turn.Records.{Record}
use tatara_claude_code_wrapp.Turn.Store
use tatara_claude_code_wrapp.Turn.Store.{completed}
use tatara_claude_code_wrapp.Api.{turn_complete}
use tatara_claude_code_wrapp.StopHook.{
  Delivery, answer_lost, answered, attempts, post_with_retry, to_session,
}

-- The record of a turn that a report completes.
abbrev pub completed_by : HookResult → Time → Record → Record
completed_by r now rec = completed r.final_text r.result_json r.usage r.stop_reason now rec

-- A turn is in flight, and no report has named a session for it.
pub record IsFresh (rec : Record) (m : Manager) : Type 0 where
  pub runs : m.state ≡ busy
  pub in_flight : is_empty m.current ≡ false
  pub no_session : m.current_session_id ≡ ""
  pub stored : Store.get m.current m.store ≡ some rec

not_refused : (r : HookResult) (rec : Record) (m : Manager) → IsFresh rec m → reject r m ≡ none
unfolding reject
not_refused r rec m f =
    let blank : is_empty m.current_session_id ≡ true = ap is_empty f.no_session in
    ground (arith, f.runs, blank)

take_report_same :
    (r : HookResult) (m : Manager)
    → ((take_report r m).current ≡ m.current) × ((take_report r m).store ≡ m.store)
unfolding take_report
take_report_same r m = (ground arith, ground arith)

finish_stores :
    (r : HookResult) (now : Time) (rec : Record) (m : Manager)
    → lookup m.current m.store.by_id ≡ some rec
    → ((finish r now m).1 ≡ none)
      × (Store.get m.current (finish r now m).0.store ≡ some (completed_by r now rec))
unfolding finish Store.complete Store.get count_complete clear_current_locked fire_done meter_tokens
finish_stores r now rec m g =
    rw (g, finish)
      (
        refl,
        ground (
          arith,
          lookup-insert m.current m.current (completed_by r now rec) m.store.by_id,
          eq_refl m.current,
        ),
      )

complete_stores :
    (r : HookResult) (now : Time) (rec : Record) (m : Manager)
    → IsFresh rec m
    → ((complete r now m).1 ≡ none)
      × (Store.get m.current (complete r now m).0.store ≡ some (completed_by r now rec))
unfolding complete Store.get
complete_stores r now rec m f =
    let same = take_report_same r m in
    let done = finish_stores r now rec (take_report r m) (
      ap (λ s. lookup (take_report r m).current s.by_id) same.1
      ∙ ap (λ c. lookup c m.store.by_id) same.0
      ∙ f.stored) in
    rw (f.in_flight, not_refused r rec m f, complete)
      (
        done.0,
        ap (λ c. lookup c (finish r now (take_report r m)).0.store.by_id) (sym same.0) ∙ done.1,
      )

-- The answer of the first attempt is lost.
abbrev pub first_lost : ℕ → Delivery
first_lost zero = answer_lost
first_lost (suc n) = answered

-- The first attempt of a report reaches the session, but its answer is lost, and the session takes
-- another turn before the second. That turn is then ended by the old report: it is stored as complete
-- with the text of the turn before it, whatever session the report names, and the command returns no
-- error.
pub late_retry_ends_next_turn :
    (r : HookResult) (now : ℕ → Time) (between : ℕ → Manager → Manager) (rec : Record) (m : Manager)
    → IsFresh rec (between 1 (turn_complete (some r) (now 0) (between 0 m)).0)
    → ((post_with_retry (to_session first_lost (some r) now between) m).1 ≡ none)
      × (Store.get
            (between 1 (turn_complete (some r) (now 0) (between 0 m)).0).current
            (post_with_retry (to_session first_lost (some r) now between) m).0.store
          ≡ some (completed_by r (now 1) rec))
unfolding post_with_retry attempts turn_complete
late_retry_ends_next_turn r now between rec m f =
    let n = between 1 (turn_complete (some r) (now 0) (between 0 m)).0 in
    let done = complete_stores r (now 1) rec n f in rw (done.0, turn_complete) (refl, done.1)
