-- ===== src/Session/Admission.antt =====
-- internal/session/session.go: `admit`, and what becomes of the one handoff past the deadline.
use tatara_claude_code_wrapp.Common.{
  ℕ, ◌+◌, ◌≡◌, ◌≢◌, ◌≤◌, ◌<◌, ◌↔◌, ◌⊎◌, ◌&&◌, not, refl, ap, Bool, true, false, List, [], ◌∷◌,
  Option, none, some, String, Time, arith, is_empty, is_zero, before, ◌==◌, le→ltb, lt→ltb,
  if◌then◌else◌, eq_iff, Bool-cases, Option-cases, ◌∙◌, inl, inr,
}
use tatara_claude_code_wrapp.Session.State.{
  Manager, HookResult, busy, Error, pod_ttl_expired, session_busy,
}
use tatara_claude_code_wrapp.Session.Submit.{
  pod_deadline, hard_cap, admit, refuse, install_timer, ensure_tailer_following, discovered,
  SubmitInput, submit, submit_slot, after_admit,
}
use tatara_claude_code_wrapp.Session.Slot.{fail_turn, fail_submit_write}
use tatara_claude_code_wrapp.Session.Hook.{complete, finish, take_report, reject}
use tatara_claude_code_wrapp.Session.Activity.{
  start_tailer, on_tailer_activity, mark_stall_suspected, on_subagent_activity,
}
use tatara_claude_code_wrapp.Session.Control.{
  register_probe, discard_probe, complete_after_interrupt, shutdown, record_probe_outcome,
}
use tatara_claude_code_wrapp.Session.Resume.{install_resume_timer, complete_from}
use tatara_claude_code_wrapp.Session.Recover.{start, boot_settled, exited}
use tatara_claude_code_wrapp.Session.Step.{Section, admits, perform, take_slot, adopt_or_stay}

-- A pod with a lifetime is past its deadline.
abbrev pub IsPast : Time → Manager → Type 0
IsPast now m = (pod_deadline m ≢ 0) × (pod_deadline m ≤ now)

-- `admit` lets a turn through exactly if the pod has no deadline, or is before it, or the turn is
-- the handoff, before the hard cap, and no handoff was let through past the deadline yet.
admit_iff :
    (handoff : Bool) (now : Time) (m : Manager)
    → ((admit handoff now m).1 ≡ none) ↔ (
        (pod_deadline m ≡ 0)
        ⊎ (now < pod_deadline m)
        ⊎ ((handoff ≡ true) × (now < hard_cap m) × (m.handoff_admitted ≡ false)))
unfolding admit
admit_iff handoff now m = ground arith

abbrev flag : Manager → ℕ
flag m = if m.handoff_admitted then 1 else 0

-- Whether a section admits a turn past the deadline.
abbrev admitted : Option Error → Bool
admitted none = true
admitted (some e) = false

abbrev is_past : Time → Manager → Bool
is_past now m = not (is_zero (pod_deadline m)) && not (before now (pod_deadline m))

abbrev pub late : Section → Manager → ℕ
late (admits handoff now) m = if is_past now m && admitted (admit handoff now m).1 then 1 else 0
late _ m = 0

pub late_count : List Section → Manager → ℕ
late_count [] m = 0
late_count (s ∷ ss) m = late s m + late_count ss (perform s m)

abbrev other : Section → Bool
other (admits handoff now) = false
other _ = true

finish-handoff :
    (r : HookResult) (now : Time) (m : Manager)
    → (finish r now m).0.handoff_admitted ≡ m.handoff_admitted
unfolding finish
finish-handoff r now m = ground arith

take_report-handoff :
    (r : HookResult) (m : Manager) → (take_report r m).handoff_admitted ≡ m.handoff_admitted
unfolding take_report
take_report-handoff r m = ground arith

complete-handoff :
    (r : HookResult) (now : Time) (m : Manager)
    → (complete r now m).0.handoff_admitted ≡ m.handoff_admitted
unfolding complete
complete-handoff r now m = elim (Bool-cases (is_empty m.current)) [
  | inl idle ↦ rw (idle, complete)
  | inr held ↦ elim (Option-cases (reject r m)) [
    | inr (e, refused) ↦ rw (held, complete) (rw (refused, complete))
    | inl taken ↦
        rw (held, complete)
          (rw (taken, complete) (finish-handoff r now (take_report r m) ∙ take_report-handoff r m))
  ]
]

keeps_handoff :
    (s : Section) (m : Manager)
    → other s ≡ true
    → (perform s m).handoff_admitted ≡ m.handoff_admitted
unfolding perform start_tailer take_slot fail_submit_write install_timer ensure_tailer_following
    discovered on_tailer_activity on_subagent_activity mark_stall_suspected start exited
    adopt_or_stay boot_settled fail_turn install_resume_timer complete_from register_probe
    discard_probe complete_after_interrupt shutdown record_probe_outcome
keeps_handoff (Section.admits handoff now) m o = cc
keeps_handoff (Section.hook r now) m o = complete-handoff r now m
keeps_handoff _ m o = ground arith

late-flag : (s : Section) (m : Manager) → late s m + flag m ≤ flag (perform s m)
unfolding perform admit
late-flag (admits handoff now) m = ground arith
late-flag s m =
    let same : (perform s m).handoff_admitted ≡ m.handoff_admitted = keeps_handoff s m refl in
    ground (arith, same)

flag_le : (m : Manager) → flag m ≤ 1
flag_le m = ground arith

not_zero : (n : ℕ) → n ≢ 0 → (n == 0) ≡ false
not_zero n h = ground arith

late_count-flag : (ss : List Section) (m : Manager) → late_count ss m + flag m ≤ 1
unfolding late_count
late_count-flag [] m = omega (arith, flag_le m)
late_count-flag (s ∷ ss) m = omega (arith, late-flag s m, late_count-flag ss (perform s m))

-- Over every interleaving, whatever the requests and their times, at most one turn is let through
-- past the pod's deadline, and none once a handoff was.
pub one_handoff_past_deadline :
    (ss : List Section) (m : Manager)
    → (late_count ss m ≤ 1) × ((m.handoff_admitted ≡ false) ⊎ (late_count ss m ≡ 0))
one_handoff_past_deadline ss m = ground (arith, late_count-flag ss m)

abbrev spent : Manager → Manager
spent m = record m { handoff_admitted = true }

admit_spends :
    (now : Time) (m : Manager)
    → IsPast now m
    → now < hard_cap m
    → m.handoff_admitted ≡ false
    → admit true now m ≡ (spent m, none)
unfolding admit
admit_spends now m past before_cap unused = rw (
  unused,
  le→ltb now (pod_deadline m) past.1,
  lt→ltb now (hard_cap m) before_cap,
  not_zero (pod_deadline m) past.0,
)

admit_refuses :
    (handoff : Bool) (now : Time) (m : Manager)
    → IsPast now m
    → m.handoff_admitted ≡ true
    → (admit handoff now m).1 ≡ some pod_ttl_expired
unfolding admit
admit_refuses handoff now m past used = ground arith

refuse_busy : (m : Manager) → m.state ≡ busy → m.current ≢ "" → refuse m ≡ some session_busy
unfolding refuse
refuse_busy m is_busy held = ground (arith, eq_iff m.current "")

slot_refused :
    (text callback_url : String) (x : SubmitInput) (m : Manager)
    → refuse m ≡ some session_busy
    → after_admit text callback_url x (m, none) ≡ (m, some session_busy)
unfolding after_admit
slot_refused text u x m e = rw (e, submit_slot)

admit_stops :
    (text callback_url : String) (x : SubmitInput) (a : Manager × Option Error)
    → a.1 ≡ some pod_ttl_expired
    → (after_admit text callback_url x a).1 ≡ some pod_ttl_expired
unfolding after_admit
admit_stops text u x (m, some e) h = h
admit_stops text u x (m, none) h = cc

submit_spends :
    (text callback_url : String) (x : SubmitInput) (m : Manager)
    → IsPast x.admit_now m
    → x.admit_now < hard_cap m
    → m.handoff_admitted ≡ false
    → m.state ≡ busy
    → m.current ≢ ""
    → submit text callback_url true x m ≡ (spent m, some session_busy)
unfolding submit
submit_spends text u x m past before_cap unused is_busy held =
    ap (after_admit text u x) (admit_spends x.admit_now m past before_cap unused)
    ∙ slot_refused text u x (spent m) (refuse_busy (spent m) is_busy held)

submit_refused :
    (text callback_url : String) (handoff : Bool) (x : SubmitInput) (m : Manager)
    → IsPast x.admit_now m
    → m.handoff_admitted ≡ true
    → (submit text callback_url handoff x m).1 ≡ some pod_ttl_expired
unfolding submit
submit_refused text u handoff x m past used =
    admit_stops text u x (admit handoff x.admit_now m)
      (admit_refuses handoff x.admit_now m past used)

-- A handoff that is submitted past the deadline while a turn is in flight is answered as busy, and
-- spends the one allowance all the same: every later submission past the deadline is refused, a
-- handoff too, and the state is as the refused handoff left it.
pub busy_handoff_is_spent :
    (text callback_url text' callback_url' : String) (handoff : Bool) (x x' : SubmitInput)
    (m : Manager)
    → IsPast x.admit_now m
    → x.admit_now < hard_cap m
    → m.handoff_admitted ≡ false
    → m.state ≡ busy
    → m.current ≢ ""
    → IsPast x'.admit_now m
    → let (m', first) = submit text callback_url true x m in
      (first ≡ some session_busy)
      × (m'.store ≡ m.store)
      × ((submit text' callback_url' handoff x' m').1 ≡ some pod_ttl_expired)
unfolding pod_deadline
busy_handoff_is_spent text u text' u' handoff x x' m past before_cap unused is_busy held past' =
    let first = submit_spends text u x m past before_cap unused is_busy held in
    rw first (refl, refl, submit_refused text' u' handoff x' (spent m) past' refl)
