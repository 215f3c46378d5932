-- ===== src/Session/Upkeep.antt =====
-- internal/session: the states of the session against its slot, its writer and its stall report.
use tatara_claude_code_wrapp.Common.{
  ℕ, ◌≡◌, ◌≢◌, ◌⊎◌, Bool, true, false, Option, none, some, String, Time, arith, is_empty, eq_iff,
  Bool-cases, Option-cases, inl, inr, ◌+++◌,
}
use tatara_claude_code_wrapp.Session.State.{
  Manager, Config, HookResult, booting, ready, busy, dead, new,
}
use tatara_claude_code_wrapp.Session.Submit.{
  admit, install_timer, ensure_tailer_following, discovered,
}
use tatara_claude_code_wrapp.Session.Slot.{fail_turn, fail_submit_write}
use tatara_claude_code_wrapp.Session.Hook.{complete, finish, take_report, reject}
use tatara_claude_code_wrapp.Session.Activity.{
  start_tailer, on_tailer_activity, mark_stall_suspected, on_subagent_activity,
}
use tatara_claude_code_wrapp.Session.Control.{
  Reads, read_or, register_probe, discard_probe, complete_after_interrupt, shutdown,
  record_probe_outcome,
}
use tatara_claude_code_wrapp.Session.Resume.{install_resume_timer, complete_from}
use tatara_claude_code_wrapp.Session.Recover.{start, boot_settled, exited}
use tatara_claude_code_wrapp.Session.Step.{
  Section, perform, take_slot, adopt_or_stay, IsAllowed, Reach, here, next,
}
use tatara_claude_code_wrapp.Session.Ledger.{IsBalanced, start_of, reached-IsLedger}
use tatara_claude_code_wrapp.Turn.Records.{running}
use tatara_claude_code_wrapp.Turn.Laws.{status}
use tatara_claude_code_wrapp.Turn.Frame.{error-complete, error-fail, error-interrupt}

abbrev pub has_writer : Option ℕ → Bool
has_writer none = false
has_writer (some p) = true

-- A busy session has a turn in its slot; a session that is up, or holds a turn, has a process to
-- write to, and its `proc` is that process.
pub record IsKept (m : Manager) : Type 0 where
  pub busy_held : m.state ≡ busy → m.current ≢ ""
  pub up_writes : (m.state ≡ ready) ⊎ (m.state ≡ busy) → has_writer m.w ≡ true
  pub held_writes : m.current ≢ "" → has_writer m.w ≡ true
  pub same_proc : m.proc ≡ m.w

finish-IsKept :
    (r : HookResult) (now : Time) (m : Manager)
    → m.current ≢ ""
    → IsKept m
    → IsKept (finish r now m).0
unfolding finish
finish-IsKept r now m held k = ground arith

take_report-IsKept : (r : HookResult) (m : Manager) → IsKept m → IsKept (take_report r m)
unfolding take_report
take_report-IsKept r m k = ground arith

current-take_report : (r : HookResult) (m : Manager) → (take_report r m).current ≡ m.current
unfolding take_report
current-take_report r m = ground arith

complete-IsKept :
    (r : HookResult) (now : Time) (m : Manager) → IsKept m → IsKept (complete r now m).0
unfolding complete
complete-IsKept r now m k = elim (Bool-cases (is_empty m.current)) [
  | inl idle ↦ rw (idle, complete) (ground arith)
  | inr held ↦ elim (Option-cases (reject r m)) [
    | inr (e, refused) ↦ rw (held, complete) (rw (refused, complete) (ground arith))
    | inl taken ↦
        rw (held, complete)
          (rw (taken, complete)
            (finish-IsKept r now (take_report r m)
              (ground (arith, held, eq_iff m.current "", current-take_report r m))
              (take_report-IsKept r m k)))
  ]
]

module _ (m : Manager) (b : IsBalanced m) (k : IsKept m) where
  fail_submit_write-IsKept :
      (id stage werr : String) (now : Time) → IsKept (fail_submit_write id stage werr now m)
  unfolding fail_submit_write
  fail_submit_write-IsKept id stage werr now =
      ground
        (arith, eq_iff m.current id, b.unnamed, error-fail id m.store (stage +++ ": " +++ werr) now)

  complete_from-IsKept :
      (reads : Reads) (id path text usage stop : String) (now : Time)
      → IsKept (complete_from reads id path text usage stop now m)
  unfolding complete_from
  complete_from-IsKept reads id path text usage stop now =
      ground
        (arith, eq_iff m.current id, b.unnamed, error-complete id m.store text "" usage stop now)

  complete_after_interrupt-IsKept :
      (reads : Reads) (id path : String) (now : Time)
      → IsKept (complete_after_interrupt reads id path now m)
  unfolding complete_after_interrupt
  complete_after_interrupt-IsKept reads id path now =
      let answer = read_or ("", "", "") (reads.last_assistant path) in
      ground
        (arith, eq_iff m.current id, b.unnamed, error-interrupt id m.store answer.0 answer.1 now)

perform-IsKept :
    (s : Section) (m : Manager) → IsAllowed s m → IsBalanced m → IsKept m → IsKept (perform s m)
unfolding perform start_tailer admit take_slot install_timer ensure_tailer_following discovered
    on_tailer_activity on_subagent_activity mark_stall_suspected start exited adopt_or_stay
    boot_settled fail_turn install_resume_timer register_probe discard_probe shutdown
    record_probe_outcome
perform-IsKept (Section.admits handoff now) m a b k = ground arith
perform-IsKept (Section.takes_slot id text u now) m a b k = ground (arith, eq_iff m.current "")
perform-IsKept (Section.fails_write id stage werr now) m a b k =
    fail_submit_write-IsKept m b k id stage werr now
perform-IsKept (Section.hook r now) m a b k = complete-IsKept r now m k
perform-IsKept (Section.starts p) m a b k = ground arith
perform-IsKept (Section.resumes id mode now) m a b k = ground (arith, eq_iff m.current id)
perform-IsKept (Section.completes_from reads id path text usage stop now) m a b k =
    complete_from-IsKept m b k reads id path text usage stop now
perform-IsKept (Section.resolves_interrupt reads id path now) m a b k =
    complete_after_interrupt-IsKept m b k reads id path now
perform-IsKept (Section.shuts_down error) m a b k = ground arith
perform-IsKept (Section.fails id reason now) m a b k = ground arith
perform-IsKept _ m a b k = ground arith

new-IsKept : (cfg : Config) (t : Time) → IsKept (start_of cfg t)
unfolding new
new-IsKept cfg t = ground arith

pub reached-IsKept : (cfg : Config) (t : Time) {m : Manager} → Reach (start_of cfg t) m → IsKept m
reached-IsKept cfg t here = new-IsKept cfg t
reached-IsKept cfg t (next {n} r s a) =
    perform-IsKept s n a (reached-IsLedger cfg t r).balanced (reached-IsKept cfg t r)

-- At every moment of every interleaving: a busy session holds a turn that the store has as running,
-- and a session that is ready or busy has a process to write to.
pub busy_session_runs :
    (cfg : Config) (t : Time) (m : Manager)
    → Reach (start_of cfg t) m
    → ((m.state ≡ busy)
        × (m.current ≢ "")
        × (status m.current m.store ≡ some running)
        × (has_writer m.w ≡ true))
      ⊎ ((m.state ≡ ready) × (has_writer m.w ≡ true))
      ⊎ (m.state ≡ booting)
      ⊎ (m.state ≡ dead)
busy_session_runs cfg t m r =
    let l = reached-IsLedger cfg t r in
    let k = reached-IsKept cfg t r in ground (arith, l.balanced.slot, k.busy_held, k.up_writes)
