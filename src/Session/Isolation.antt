-- ===== src/Session/Isolation.antt =====
-- internal/session: what a probe, an interrupt and the inactivity timer leave alone.
use tatara_claude_code_wrapp.Common.{
  ℕ, ◌≡◌, ◌≢◌, true, List, [], ◌∷◌, Option, String, Time, arith, eq_iff, Option-cases, inl, inr,
}
use tatara_claude_code_wrapp.Session.State.{Manager}
use tatara_claude_code_wrapp.Session.Activity.{mark_stall_suspected, has_timer}
use tatara_claude_code_wrapp.Session.Control.{
  ProbeInput, probe_text, probe, probe_writes, register_probe, live_writer, interrupt,
}

-- The turn in flight, its record, its deadline, the admission of others and the life of the process
-- are as they were.
pub record SameTurn (m n : Manager) : Type 0 where
  pub store : n.store ≡ m.store
  pub current : n.current ≡ m.current
  pub state : n.state ≡ m.state
  pub timer : n.timer ≡ m.timer
  pub stall : n.stall_suspected_since ≡ m.stall_suspected_since
  pub handoff : n.handoff_admitted ≡ m.handoff_admitted
  pub finished : n.turns_completed ≡ m.turns_completed
  pub restarts : n.restarts ≡ m.restarts
  pub proc : n.proc ≡ m.proc
  pub done : n.done ≡ m.done

register_probe-SameTurn :
    (id text : String) (now : Time) (m : Manager) → SameTurn m (register_probe id text now m)
unfolding register_probe
register_probe-SameTurn id text now m = ground arith

probe_writes-SameTurn :
    (p : ℕ) (text : String) (x : ProbeInput) (m : Manager) → SameTurn m (probe_writes p text x m).0
unfolding probe_writes
probe_writes-SameTurn p text x m = ground arith

SameTurn-trans : {m n k : Manager} → SameTurn m n → SameTurn n k → SameTurn m k
SameTurn-trans a b = ground arith

-- A probe is no turn: on every path, write errors included, it leaves the turn in flight, its record,
-- its deadline and the handoff allowance alone.
pub probe-SameTurn : (text : String) (x : ProbeInput) (m : Manager) → SameTurn m (probe text x m).0
unfolding probe
probe-SameTurn text x m = elim (Option-cases (live_writer m)) [
  | inl down ↦ rw (down, probe) (ground arith)
  | inr (p, up) ↦
      rw (up, probe)
        (SameTurn-trans (register_probe-SameTurn x.id (probe_text text) x.now m) (
          probe_writes-SameTurn p (probe_text text) x
            (register_probe x.id (probe_text text) x.now m)))
]

-- An interrupt only writes: the turn stays in the slot until the transcript confirms it.
interrupt-SameTurn : (error : Option String) (m : Manager) → SameTurn m (interrupt error m).0
unfolding interrupt
interrupt-SameTurn error m = ground arith

-- The timer fires again and again while the turn stays silent.
pub fire_all : String → List (Time × Time) → Manager → Manager
fire_all id [] m = m
fire_all id ((stamp, now) ∷ ts) m = fire_all id ts (mark_stall_suspected id stamp now m)

record SameSilent (m n : Manager) : Type 0 where
  store : n.store ≡ m.store
  current : n.current ≡ m.current
  state : n.state ≡ m.state
  has : has_timer n.timer ≡ has_timer m.timer
  finished : n.turns_completed ≡ m.turns_completed
  stall : n.stall_suspected_since ≡ m.stall_suspected_since

fire-SameSilent :
    (id : String) (stamp now : Time) (m : Manager)
    → m.stall_suspected_since ≢ 0
    → SameSilent m (mark_stall_suspected id stamp now m)
unfolding mark_stall_suspected
fire-SameSilent id stamp now m h = ground arith

SameSilent-trans : {m n k : Manager} → SameSilent m n → SameSilent n k → SameSilent m k
SameSilent-trans a b = ground arith

fire_all-SameSilent :
    (id : String) (ts : List (Time × Time)) (m : Manager)
    → m.stall_suspected_since ≢ 0
    → SameSilent m (fire_all id ts m)
unfolding fire_all
fire_all-SameSilent id [] m h = ground arith
fire_all-SameSilent id ((stamp, now) ∷ ts) m h =
    let one = fire-SameSilent id stamp now m h in
    SameSilent-trans one
      (fire_all-SameSilent id ts (mark_stall_suspected id stamp now m) (ground (arith, one.stall)))

fire_first :
    (id : String) (first now : Time) (m : Manager)
    → m.current ≡ id
    → has_timer m.timer ≡ true
    → m.stall_suspected_since ≡ 0
    → let n = mark_stall_suspected id first now m in
      (n.stall_suspected_since ≡ first)
      × (n.store ≡ m.store)
      × (n.current ≡ m.current)
      × (n.state ≡ m.state)
      × (n.turns_completed ≡ m.turns_completed)
unfolding mark_stall_suspected
fire_first id first now m held timed fresh = ground (arith, eq_iff m.current id)

-- However often the inactivity timer of the turn in flight fires, the turn stays in the slot, running
-- and unfinished, the session keeps its state, and the stall reads as begun at the first firing.
pub stall_reports_first :
    (id : String) (first now : Time) (ts : List (Time × Time)) (m : Manager)
    → m.current ≡ id
    → has_timer m.timer ≡ true
    → m.stall_suspected_since ≡ 0
    → first ≢ 0
    → let n = fire_all id ((first, now) ∷ ts) m in
      (n.stall_suspected_since ≡ first)
      × (n.store ≡ m.store)
      × (n.current ≡ id)
      × (n.state ≡ m.state)
      × (n.turns_completed ≡ m.turns_completed)
unfolding fire_all
stall_reports_first id first now ts m held timed fresh h =
    let one = fire_first id first now m held timed fresh in
    let k = mark_stall_suspected id first now m in
    let rest = fire_all-SameSilent id ts k (ground (arith, one.0)) in ground (arith, one, rest)
