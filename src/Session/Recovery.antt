-- ===== src/Session/Recovery.antt =====
-- internal/session/session.go: a crash while a submission is being written.
use tatara_claude_code_wrapp.Common.{
  ℕ, ◌≡◌, ◌≢◌, ◌∙◌, true, false, none, some, String, Time, arith, eq_iff, ◌+++◌,
}
use tatara_claude_code_wrapp.Session.State.{Manager, booting, ready, dead}
use tatara_claude_code_wrapp.Session.Activity.{alive}
use tatara_claude_code_wrapp.Session.Submit.{refuse}
use tatara_claude_code_wrapp.Session.Slot.{fail_submit_write, fail_turn}
use tatara_claude_code_wrapp.Session.Recover.{exited}
use tatara_claude_code_wrapp.Session.Step.{Section, perform, adopt_or_stay}
use tatara_claude_code_wrapp.Turn.Records.{running}
use tatara_claude_code_wrapp.Turn.Laws.{status}
use tatara_claude_code_wrapp.Turn.Frame.{error-fail}

record Freed (m n : Manager) : Type 0 where
  state : n.state ≡ ready
  current : n.current ≡ ""
  proc : n.proc ≡ m.proc

fails_write-Freed :
    (m : Manager) (id stage werr : String) (now : Time)
    → m.current ≡ id
    → status id m.store ≡ some running
    → Freed m (fail_submit_write id stage werr now m)
unfolding fail_submit_write
fails_write-Freed m id stage werr now same runs =
    ground (arith, eq_iff m.current id, error-fail id m.store (stage +++ ": " +++ werr) now)

free_ready : (n : Manager) → n.state ≡ ready → n.current ≡ "" → refuse n ≡ none
unfolding refuse
free_ready n s c = ground (arith, eq_iff n.current "")

alive_ready : (n : Manager) → n.state ≡ ready → alive n ≡ true
unfolding alive
alive_ready n s = ground arith

record Booting (p : ℕ) (m n : Manager) : Type 0 where
  state : n.state ≡ booting
  proc : n.proc ≡ some p
  current : n.current ≡ m.current
  store : n.store ≡ m.store

crash-Booting :
    (m : Manager) (p : ℕ) → m.stopping ≡ false → Booting p m (adopt_or_stay p (exited m).0)
unfolding exited adopt_or_stay
crash-Booting m p going = ground arith

-- A claude that dies while a submission writes to it is relaunched as process `p`, and the write
-- then fails. From there on, before the boot of `p` has settled, the session reads as ready and
-- alive, and refuses no submission.
pub write_failure_opens_booting :
    (m : Manager) (p : ℕ) (stage werr : String) (now : Time)
    → m.stopping ≡ false
    → m.current ≢ ""
    → status m.current m.store ≡ some running
    → let booted = perform (Section.adopts p) (perform Section.exits m) in
      let n = perform (Section.fails_write m.current stage werr now) booted in
      (booted.state ≡ booting)
      × (n.proc ≡ some p)
      × (n.state ≡ ready)
      × (alive n ≡ true)
      × (refuse n ≡ none)
unfolding perform
write_failure_opens_booting m p stage werr now going held runs =
    let k = adopt_or_stay p (exited m).0 in
    let b = crash-Booting m p going in
    let f = fails_write-Freed k m.current stage werr now b.current (ground (arith, b.store)) in
    let n = fail_submit_write m.current stage werr now k in
    (b.state, f.proc ∙ b.proc, f.state, alive_ready n f.state, free_ready n f.state f.current)

record Dead (m n : Manager) : Type 0 where
  state : n.state ≡ dead
  current : n.current ≡ m.current
  store : n.store ≡ m.store

crash-Dead : (m : Manager) → m.stopping ≡ false → Dead m (exited m).0
unfolding exited
crash-Dead m going = ground arith

fail_turn_free :
    (n : Manager) (id reason : String) (now : Time)
    → n.current ≡ ""
    → id ≢ ""
    → fail_turn id reason now n ≡ n
unfolding fail_turn
fail_turn_free n id reason now free h = ground (arith, eq_iff n.current id)

-- If the restart budget is spent when claude dies, and the write of a submission fails before the
-- turn is failed for it, then failing it changes nothing: the session reads as ready and alive with
-- no process, and stays so.
pub write_failure_hides_death :
    (m : Manager) (stage werr reason : String) (now now' : Time)
    → m.stopping ≡ false
    → m.current ≢ ""
    → status m.current m.store ≡ some running
    → let crashed = perform Section.exits m in
      let n = perform (Section.fails_write m.current stage werr now) crashed in
      (crashed.state ≡ dead)
      × (perform (Section.fails m.current reason now') n ≡ n)
      × (n.state ≡ ready)
      × (alive n ≡ true)
unfolding perform
write_failure_hides_death m stage werr reason now now' going held runs =
    let c = crash-Dead m going in
    let k = (exited m).0 in
    let n = fail_submit_write m.current stage werr now k in
    let f = fails_write-Freed k m.current stage werr now c.current (ground (arith, c.store)) in
    (c.state, fail_turn_free n m.current reason now' f.current held, f.state, alive_ready n f.state)
