-- ===== src/Session/Move/Endings.antt =====
-- internal/session: the sections that end a turn leave the slot alone, or free it.
use tatara_claude_code_wrapp.Common.{
  ◌≡◌, none, String, Time, arith, is_empty, str_eq, eq_iff, Bool-cases, Option-cases, inl, inr,
  ◌+++◌,
}
use tatara_claude_code_wrapp.Session.State.{Manager, HookResult}
use tatara_claude_code_wrapp.Session.Slot.{fail_turn, fail_submit_write}
use tatara_claude_code_wrapp.Session.Hook.{complete, finish, take_report, reject}
use tatara_claude_code_wrapp.Session.Control.{Reads, complete_after_interrupt, read_or}
use tatara_claude_code_wrapp.Session.Resume.{complete_from}
use tatara_claude_code_wrapp.Session.Move.{SameSlot, Move, quiet, touched, begins, ends}
use tatara_claude_code_wrapp.Turn.Store
use tatara_claude_code_wrapp.Turn.Laws.{status}
use mathlib.Core.Path.{subst, subst₂}
use tatara_claude_code_wrapp.Turn.Closing.{completes, fails, is_interrupted, close}

pub fail_turn-Move :
    (id reason : String) (now : Time) (m : Manager) → Move m (fail_turn id reason now m)
unfolding fail_turn close
fail_turn-Move id reason now m = elim (Bool-cases (str_eq m.current id)) [
  | inr other ↦ quiet (ground arith) (ground arith)
  | inl same ↦ elim (Option-cases (Store.fail id reason now m.store).1) [
    | inr (e, failed) ↦ quiet (ground arith) (ground arith)
    | inl stored ↦
        let here : m.current ≡ id = (eq_iff m.current id).0 same in
        ends (fails reason now) (rw here stored) (ground (arith, here)) (ground (arith, here))
  ]
]

pub fail_submit_write-Move :
    (id stage werr : String) (now : Time) (m : Manager)
    → Move m (fail_submit_write id stage werr now m)
unfolding fail_submit_write close
fail_submit_write-Move id stage werr now m = elim (Bool-cases (str_eq m.current id)) [
  | inr other ↦ quiet (ground arith) (ground arith)
  | inl same ↦
      let msg = stage +++ ": " +++ werr in
      elim (Option-cases (Store.fail id msg now m.store).1) [
        | inr (e, failed) ↦ quiet (ground arith) (ground arith)
        | inl stored ↦
            let here : m.current ≡ id = (eq_iff m.current id).0 same in
            ends (fails msg now) (rw here stored) (ground (arith, here)) (ground (arith, here))
      ]
]

pub complete_after_interrupt-Move :
    (reads : Reads) (id path : String) (now : Time) (m : Manager)
    → Move m (complete_after_interrupt reads id path now m)
unfolding complete_after_interrupt close
complete_after_interrupt-Move reads id path now m =
    let answer = read_or ("", "", "") (reads.last_assistant path) in
    elim (Bool-cases (str_eq m.current id)) [
      | inr other ↦ quiet (ground arith) (ground arith)
      | inl same ↦ elim (Option-cases (Store.interrupt id answer.0 answer.1 now m.store).1) [
        | inr (e, failed) ↦ quiet (ground arith) (ground arith)
        | inl stored ↦
            let here : m.current ≡ id = (eq_iff m.current id).0 same in
            ends (is_interrupted answer.0 answer.1 now) (rw here stored) (ground (arith, here))
              (ground (arith, here))
      ]
    ]

pub complete_from-Move :
    (reads : Reads) (id path final_text usage stop : String) (now : Time) (m : Manager)
    → Move m (complete_from reads id path final_text usage stop now m)
unfolding complete_from close
complete_from-Move reads id path final_text usage stop now m =
    elim (Bool-cases (str_eq m.current id)) [
      | inr other ↦ quiet (ground arith) (ground arith)
      | inl same ↦ elim (Option-cases (Store.complete id final_text "" usage stop now m.store).1) [
        | inr (e, failed) ↦ quiet (ground arith) (ground arith)
        | inl stored ↦
            let here : m.current ≡ id = (eq_iff m.current id).0 same in
            ends (completes final_text "" usage stop now) (rw here stored) (ground (arith, here))
              (ground (arith, here))
      ]
    ]

take_report-SameSlot : (r : HookResult) (m : Manager) → SameSlot m (take_report r m)
unfolding take_report
take_report-SameSlot r m = ground arith

store-take_report : (r : HookResult) (m : Manager) → (take_report r m).store ≡ m.store
unfolding take_report
store-take_report r m = ground arith

finish-Move : (r : HookResult) (now : Time) (m : Manager) → Move m (finish r now m).0
unfolding finish close
finish-Move r now m =
    elim (Option-cases
      (Store.complete m.current r.final_text r.result_json r.usage r.stop_reason now m.store).1) [
        | inr (e, failed) ↦ quiet (ground arith) (ground arith)
        | inl stored ↦
            ends (completes r.final_text r.result_json r.usage r.stop_reason now) stored
              (ground arith) (ground arith)
      ]

-- The slot before `m` is that of `m`.
Move-from : {m m' n : Manager} → SameSlot m m' → m'.store ≡ m.store → Move m' n → Move m n
Move-from s e (quiet t f) = quiet (ground arith) (ground arith)
Move-from s e (touched now t f) = touched now (ground arith) (ground (arith, e, s.current))
Move-from s e (begins id text u now h free b f) =
    begins id text u now h (subst (λ x. status id x ≡ none) e free) (ground arith) (cc (e, f))
Move-from s e (ends o stored b f) =
    ends o (subst₂ (λ c x. (close o c x).1 ≡ none) s.current e stored) (ground arith)
      (ground (arith, e, s.current))

pub complete-Move : (r : HookResult) (now : Time) (m : Manager) → Move m (complete r now m).0
unfolding complete
complete-Move r now m = elim (Bool-cases (is_empty m.current)) [
  | inl idle ↦ quiet (ground arith) (ground arith)
  | inr held ↦ elim (Option-cases (reject r m)) [
    | inr (e, refused) ↦ quiet (ground arith) (ground arith)
    | inl taken ↦
        let same : (complete r now m).0 ≡ (finish r now (take_report r m)).0 =
          rw (held, complete) (rw (taken, complete)) in
        rw same (
          Move-from (take_report-SameSlot r m) (store-take_report r m)
            (finish-Move r now (take_report r m)))
  ]
]
