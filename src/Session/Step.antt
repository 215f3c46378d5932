-- ===== src/Session/Step.antt =====
-- internal/session: all that the goroutines of the manager do under its lock, one section at a time.
-- The sections of concurrent calls interleave in any order, so a run is any list of them.
use tatara_claude_code_wrapp.Common.{ℕ, ◌≡◌, ◌≢◌, Bool, false, Option, none, some, String, Time}
use tatara_claude_code_wrapp.Session.State.{Manager, HookResult, dead, ResumeMode}
use tatara_claude_code_wrapp.Session.Slot.{write, fail_turn, fail_submit_write}
use tatara_claude_code_wrapp.Session.Submit.{
  admit, refuse, reserve, install_timer, ensure_tailer_following, discovered,
}
use tatara_claude_code_wrapp.Session.Hook.{complete}
use tatara_claude_code_wrapp.Session.Activity.{
  on_tailer_activity, mark_stall_suspected, on_subagent_activity, start_tailer,
}
use tatara_claude_code_wrapp.Session.Control.{
  Reads, register_probe, discard_probe, complete_after_interrupt, shutdown,
}
use tatara_claude_code_wrapp.Session.Resume.{install_resume_timer, complete_from}
use tatara_claude_code_wrapp.Session.Recover.{start, boot_settled, exited, adopt}
use tatara_claude_code_wrapp.Turn.Laws.{status}

-- The arguments of a section are what its goroutine holds when it takes the lock.
pub data Section : Type 0 where
  -- `Submit`
  admits : Bool → Time → Section
  takes_slot : String → String → String → Time → Section
  fails_write : String → String → String → Time → Section
  sets_timer : String → Time → Section
  follows : Section
  discovers : String → Section
  -- a write to the PTY, by any caller
  writes : ℕ → String → Option String → Section
  -- `Complete`
  hook : HookResult → Time → Section
  -- the tailer, the subagents' tailers and the inactivity timer
  activity : String → Bool → Time → Section
  subagent : Bool → Time → Section
  stalls : String → Time → Time → Section
  -- `Start`, `watch`, `relaunch`, `bootWait` and `resumeTurn`
  starts : ℕ → Section
  exits : Section
  adopts : ℕ → Section
  settles : ℕ → Section
  gives_up : Section
  fails : String → String → Time → Section
  resumes : String → ResumeMode → Time → Section
  completes_from : Reads → String → String → String → String → String → Time → Section
  -- `Probe`, `awaitInterruptedTurn` and `Shutdown`
  probes : String → String → Time → Section
  drops_probe : String → Section
  resolves_interrupt : Reads → String → String → Time → Section
  shuts_down : Option String → Section
  -- `StartTailer`, the end of the context it was given, and the callbacks that the program sets
  starts_tailer : Bool → Section
  ends_parent : Section
  sets_callbacks : Bool → Bool → Section

unfoldable pub take_slot : String → String → String → Time → Manager → Manager
unfolding refuse reserve
take_slot id text callback_url now m = elim (refuse m) [
  | some e ↦ m
  | none ↦ reserve id text callback_url now m
]

unfoldable pub adopt_or_stay : ℕ → Manager → Manager
unfolding adopt
adopt_or_stay p m = elim (adopt p m) [ none ↦ m | some m1 ↦ m1 ]

unfoldable pub perform : Section → Manager → Manager
perform (admits handoff now) m = (admit handoff now m).0
perform (takes_slot id text callback_url now) m = take_slot id text callback_url now m
perform (fails_write id stage werr now) m = fail_submit_write id stage werr now m
perform (sets_timer id now) m = install_timer id now m
perform follows m = ensure_tailer_following m
perform (discovers path) m = discovered path m
perform (writes p text error) m = write p text error m
perform (hook r now) m = (complete r now m).0
perform (activity id probe_originated now) m = on_tailer_activity id probe_originated now m
perform (subagent probe_originated now) m = on_subagent_activity probe_originated now m
perform (stalls id stamp now) m = mark_stall_suspected id stamp now m
perform (starts p) m = start p m
perform exits m = (exited m).0
perform (adopts p) m = adopt_or_stay p m
perform (settles p) m = boot_settled p m
perform gives_up m = record m { state = dead }
perform (fails id reason now) m = fail_turn id reason now m
perform (resumes id mode now) m = install_resume_timer id mode now m
perform (completes_from reads id path text usage stop now) m =
    complete_from reads id path text usage stop now m
perform (probes id text now) m = register_probe id text now m
perform (drops_probe id) m = discard_probe id m
perform (resolves_interrupt reads id path now) m = complete_after_interrupt reads id path now m
perform (shuts_down error) m = shutdown error m
perform (starts_tailer enabled) m = start_tailer enabled m
perform ends_parent m = record m { tailer_parent_live = false }
perform (sets_callbacks done restart) m = record m { on_turn_done = done; on_restart = restart }

-- What the code relies on: a new id is neither empty nor in use, and a timer or a recovery is that
-- of a turn.
abbrev pub IsAllowed : Section → Manager → Type 0
IsAllowed (takes_slot id text callback_url now) m = (id ≢ "") × (status id m.store ≡ none)
IsAllowed (stalls id stamp now) m = id ≢ ""
IsAllowed (resumes id mode now) m = id ≢ ""
IsAllowed _ m = Unit

-- A run of sections from one state of the manager to another.
pub data Reach (m : Manager) : Manager → Type 0 where
  here : Reach m m
  next : {n : Manager} → Reach m n → (s : Section) → IsAllowed s n → Reach m (perform s n)
