-- ===== src/Session/Recover.antt =====
-- internal/session/session.go: the start of claude, its unexpected end, and its relaunch.
use tatara_claude_code_wrapp.Common.{
  ℕ, ◌+◌, ◌&&◌, ◌||◌, not, Bool, true, false, Option, none, some, String, Time, is_empty, ltb, ◌==◌,
  if◌then◌else◌, ◌+++◌, ◌⊎◌, inl, inr,
}
use tatara_claude_code_wrapp.Common.Int.{ℤ, pos, negsuc}
use tatara_claude_code_wrapp.Session.State.{State, booting, ready, dead, Manager}
use tatara_claude_code_wrapp.Session.Slot.{stopped, write, fail_turn}
use tatara_claude_code_wrapp.Session.Resume.{ResumeInput, resume_turn}

-- `attempt > max`.
abbrev pub exceeds : ℕ → ℤ → Bool
exceeds attempt (pos n) = ltb n attempt
exceeds attempt (negsuc n) = true

abbrev is_booting : State → Bool
is_booting booting = true
is_booting _ = false

abbrev runs : Option ℕ → ℕ → Bool
runs none p = false
runs (some q) p = q == p

-- `Start`, once the process `p` is spawned.
unfoldable pub start : ℕ → Manager → Manager
start p m = record m { proc = some p; w = some p }

-- The end of `bootWait` for process `p`, where it was not broken off.
unfoldable pub boot_settled : ℕ → Manager → Manager
boot_settled p m = if is_booting m.state && runs m.proc p then record m { state = ready } else m

-- `writeRaw`.
unfoldable pub write_raw : String → Option String → Manager → Manager
write_raw s error m = elim m.w [ none ↦ m | some p ↦ write p s error m ]

-- The first section of `watch`: the process ended. The result is the number of the attempt to
-- relaunch, nothing in a shutdown.
unfoldable pub exited : Manager → Manager × Option ℕ
exited m =
    if m.stopping
    then (record m { state = dead }, none)
    else let attempt = m.restarts + 1 in
      (record m { timer = stopped m.timer; restarts = attempt; state = dead }, some attempt)

-- `on_disk` says that the glob finds a transcript.
unfoldable pub should_resume : Bool → Manager → Bool
should_resume on_disk m =
    if ltb 0 m.turns_completed || not (is_empty m.transcript_path)
    then true
    else if is_empty m.cfg.home_dir || is_empty m.cfg.workspace
    then false
    else on_disk

-- The section of `relaunch` behind the spawn of `p`; nothing in a shutdown.
unfoldable pub adopt : ℕ → Manager → Option Manager
adopt p m =
    if m.stopping then none else some (record m { proc = some p; w = some p; state = booting })

unfoldable pub conversation_restarted : Bool → Manager → Manager
conversation_restarted resumed m =
    if resumed && m.on_restart
    then record m { conversation_restarts = m.conversation_restarts + 1 }
    else m

-- What `watch` meets when its process ends.
pub record WatchInput : Type 0 where
  pub on_disk : Bool
  pub spawn : ℕ
  pub spawn_error : Option String
  pub settled : Bool
  pub fail_now : Time
  pub resume : ResumeInput

unfoldable pub relaunch_failed : String → String → Time → Manager → Manager
unfolding fail_turn
relaunch_failed in_flight error now m =
    let m1 = record m { state = dead } in
    if is_empty in_flight
    then m1
    else fail_turn in_flight ("claude relaunch failed: " +++ error) now m1

unfoldable pub budget_exhausted : (ℤ → String) → String → Time → Manager → Manager
unfolding fail_turn
budget_exhausted show in_flight now m =
    if is_empty in_flight
    then m
    else fail_turn in_flight
        ("claude died; restart budget (" +++ show m.cfg.max_restarts +++ ") exhausted") now m

abbrev count_restart : Manager → Manager
count_restart m = record m {
  metrics = record (m.metrics) { claude_restarts = m.metrics.claude_restarts + 1 };
}

-- `relaunch`, from the spawn to the restart hook.
unfoldable pub relaunch : Bool → WatchInput → Manager → Manager ⊎ Manager × String
unfolding adopt boot_settled conversation_restarted
relaunch resumed x m = elim x.spawn_error [
  | some e ↦ inr (m, e)
  | none ↦ elim (adopt x.spawn m) [
    | none ↦ inr (m, "session is shutting down")
    | some m1 ↦
        let m2 = if x.settled then boot_settled x.spawn m1 else m1 in
        inl (conversation_restarted resumed m2)
  ]
]

-- `watch` with nothing between its sections. `show` prints an integer.
unfoldable pub watch : (ℤ → String) → WatchInput → Manager → Manager
unfolding exited should_resume relaunch relaunch_failed budget_exhausted resume_turn
watch show x m =
    let in_flight = m.current in
    let (m1, attempt) = exited m in
    elim attempt [
      | none ↦ m1
      | some n ↦
          if exceeds n m1.cfg.max_restarts
          then budget_exhausted show in_flight x.fail_now m1
          else let m2 = count_restart m1 in
            let resumed = should_resume x.on_disk m2 in
            elim (relaunch resumed x m2) [
              | inr (m3, error) ↦ relaunch_failed in_flight error x.fail_now m3
              | inl m3 ↦
                  if is_empty in_flight then m3 else resume_turn in_flight resumed x.resume m3
            ]
    ]
