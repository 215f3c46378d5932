-- ===== src/Session/Move/Sections.antt =====
-- internal/session: every section leaves the slot and the turns alone, touches the turn in flight,
-- begins a turn or ends one.
use tatara_claude_code_wrapp.Common.{
  ◌≡◌, ◌≢◌, refl, Bool, none, String, Time, arith, is_empty, str_eq, eq_iff, Bool-cases,
  Option-cases, inl, inr, not, ◌||◌,
}
use tatara_claude_code_wrapp.Session.State.{Manager}
use tatara_claude_code_wrapp.Session.Submit.{
  admit, refuse, install_timer, ensure_tailer_following, discovered,
}
use tatara_claude_code_wrapp.Session.Activity.{
  start_tailer, on_tailer_activity, mark_stall_suspected, on_subagent_activity, has_timer,
}
use tatara_claude_code_wrapp.Session.Control.{
  register_probe, discard_probe, shutdown, record_probe_outcome,
}
use tatara_claude_code_wrapp.Session.Resume.{install_resume_timer}
use tatara_claude_code_wrapp.Session.Recover.{start, boot_settled, exited}
use tatara_claude_code_wrapp.Session.Step.{Section, perform, take_slot, adopt_or_stay, IsAllowed}
use tatara_claude_code_wrapp.Session.Move.{Move, quiet, touched, begins}
use tatara_claude_code_wrapp.Session.Move.Endings.{
  fail_turn-Move, fail_submit_write-Move, complete_after_interrupt-Move, complete_from-Move,
  complete-Move,
}
use tatara_claude_code_wrapp.Turn.Laws.{status}

take_slot-Move :
    (id text u : String) (now : Time) (m : Manager)
    → id ≢ ""
    → status id m.store ≡ none
    → Move m (take_slot id text u now m)
unfolding take_slot
take_slot-Move id text u now m h f = elim (Option-cases (refuse m)) [
  | inr (e, refused) ↦ rw (refused, take_slot) (quiet (ground arith) refl)
  | inl free ↦ begins id text u now h f (ground (arith, eq_iff m.current "")) (ground arith)
]

abbrev ignores : String → Bool → Manager → Bool
ignores id p m = p || is_empty id || not (str_eq id m.current) || not (has_timer m.timer)

on_tailer_activity-Move :
    (id : String) (p : Bool) (now : Time) (m : Manager) → Move m (on_tailer_activity id p now m)
unfolding on_tailer_activity
on_tailer_activity-Move id p now m = elim (Bool-cases (ignores id p m)) [
  | inl idle ↦ quiet (ground arith) (ground arith)
  | inr held ↦ touched now (ground arith) (ground (arith, eq_iff id m.current))
]

-- Each section of the manager, started under the condition on its ids, does one of four things: it
-- leaves the slot, the counts of turns and the store alone; it only notes activity of the turn in
-- the slot; it starts a turn with a new id in the free slot; or it ends the turn in the slot, with
-- the counts and the record that its ending calls for.
pub perform-Move : (s : Section) (m : Manager) → IsAllowed s m → Move m (perform s m)
unfolding perform start_tailer admit install_timer ensure_tailer_following discovered
    on_subagent_activity mark_stall_suspected start exited adopt_or_stay boot_settled
    install_resume_timer register_probe discard_probe shutdown record_probe_outcome
perform-Move (Section.admits handoff now) m a = quiet (ground arith) (ground arith)
perform-Move (Section.takes_slot id text u now) m (h, f) = take_slot-Move id text u now m h f
perform-Move (Section.fails_write id stage werr now) m a =
    fail_submit_write-Move id stage werr now m
perform-Move (Section.sets_timer id now) m a = quiet (ground arith) (ground arith)
perform-Move Section.follows m a = quiet (ground arith) (ground arith)
perform-Move (Section.discovers path) m a = quiet (ground arith) (ground arith)
perform-Move (Section.writes p text error) m a = quiet (ground arith) (ground arith)
perform-Move (Section.hook r now) m a = complete-Move r now m
perform-Move (Section.activity id p now) m a = on_tailer_activity-Move id p now m
perform-Move (Section.subagent p now) m a = quiet (ground arith) (ground arith)
perform-Move (Section.stalls id stamp now) m a = quiet (ground arith) (ground arith)
perform-Move (Section.starts p) m a = quiet (ground arith) (ground arith)
perform-Move Section.exits m a = quiet (ground arith) (ground arith)
perform-Move (Section.adopts p) m a = quiet (ground arith) (ground arith)
perform-Move (Section.settles p) m a = quiet (ground arith) (ground arith)
perform-Move Section.gives_up m a = quiet (ground arith) (ground arith)
perform-Move (Section.fails id reason now) m a = fail_turn-Move id reason now m
perform-Move (Section.resumes id mode now) m a = quiet (ground arith) (ground arith)
perform-Move (Section.completes_from reads id path text usage stop now) m a =
    complete_from-Move reads id path text usage stop now m
perform-Move (Section.probes id text now) m a = quiet (ground arith) (ground arith)
perform-Move (Section.drops_probe id) m a = quiet (ground arith) (ground arith)
perform-Move (Section.resolves_interrupt reads id path now) m a =
    complete_after_interrupt-Move reads id path now m
perform-Move (Section.shuts_down error) m a = quiet (ground arith) (ground arith)
perform-Move (Section.starts_tailer enabled) m a = quiet (ground arith) (ground arith)
perform-Move Section.ends_parent m a = quiet (ground arith) (ground arith)
perform-Move (Section.sets_callbacks done restart) m a = quiet (ground arith) (ground arith)
