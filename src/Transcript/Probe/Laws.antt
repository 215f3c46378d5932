-- ===== src/Transcript/Probe/Laws.antt =====
-- internal/transcript/probe.go: any sequence of observations, and the outcomes that it emits.
use text.Mathlib.Text.{starts_with}
use tatara_claude_code_wrapp.Common.{
  ℕ, ◌+◌, ◌≤◌, ◌≡◌, refl, Bool, true, false, List, [], ◌∷◌, Option, none, some, String, Time, arith,
  str_eq, if◌then◌else◌, Option-cases, inl, inr, ◌⊎◌,
}
use tatara_claude_code_wrapp.Transcript.Probe.{
  ProbeState, pending, delivered, answered, ProbeRecord, ProbeTracker, Emission, new_probe_tracker,
  probe_answer_prefix, register, discard, finalize, note_enqueue, note_removal, note_assistant_text,
}

-- Every method that changes the tracker.
pub data Op : Type 0 where
  register_op : String → String → Time → Op
  discard_op : String → Op
  finalize_op : Op
  enqueue_op : String → Time → Op
  removal_op : Time → Op
  assistant_op : String → Time → Op

unfoldable pub apply : Op → ProbeTracker → ProbeTracker × Emission
unfolding register discard finalize note_enqueue note_removal note_assistant_text
apply (register_op id text at) p = register id text at p
apply (discard_op id) p = (discard id p, none)
apply finalize_op p = finalize p
apply (enqueue_op content at) p = ((note_enqueue content at p).0, none)
apply (removal_op at) p = (note_removal at p, none)
apply (assistant_op text at) p =
    ((note_assistant_text text at p).0, (note_assistant_text text at p).1)

-- 1 while a probe is tracked whose outcome is still to come.
abbrev pub live_record : Option ProbeRecord → ℕ
live_record none = 0
live_record (some r) = if r.finished then 0 else 1

abbrev pub live : ProbeTracker → ℕ
live p = live_record p.cur

abbrev emitted : Emission → ℕ
emitted none = 0
emitted (some e) = 1

abbrev registers : Op → ℕ
registers (register_op id text at) = 1
registers _ = 0

abbrev matches : Option ProbeRecord → String → Bool
matches none id = false
matches (some r) id = str_eq r.status.id id

-- A discarded probe that was still to have an outcome.
abbrev dropped : Op → ProbeTracker → ℕ
dropped (discard_op id) p = if matches p.cur id then live p else 0
dropped _ p = 0

pub record Tally : Type 0 where
  pub registrations : ℕ
  pub outcomes : ℕ
  pub discards : ℕ

unfoldable pub run : List Op → ProbeTracker → Tally → ProbeTracker × Tally
run [] p t = (p, t)
run (o ∷ os) p t = run os (apply o p).0 (record {
  registrations = t.registrations + registers o;
  outcomes = t.outcomes + emitted (apply o p).1;
  discards = t.discards + dropped o p;
})

abbrev pub zero_tally : Tally
zero_tally = record { registrations = 0; outcomes = 0; discards = 0 }

apply-live :
    (o : Op) (p : ProbeTracker)
    → live p + registers o ≡ live (apply o p).0 + emitted (apply o p).1 + dropped o p
unfolding apply
apply-live (register_op id text at) p = ground arith
apply-live (discard_op id) p = ground arith
apply-live finalize_op p = ground arith
apply-live (enqueue_op content at) p = ground arith
apply-live (removal_op at) p = ground arith
apply-live (assistant_op text at) p = ground arith

run_balance :
    (os : List Op) (p : ProbeTracker) (t : Tally)
    → t.registrations ≡ t.outcomes + t.discards + live p
    → (run os p t).1.registrations
      ≡ (run os p t).1.outcomes + (run os p t).1.discards + live (run os p t).0
unfolding run
run_balance [] p t h = h
run_balance (o ∷ os) p t h =
    run_balance os (apply o p).0
      (record {
        registrations = t.registrations + registers o;
        outcomes = t.outcomes + emitted (apply o p).1;
        discards = t.discards + dropped o p;
      })
      (omega (arith, apply-live o p))

-- Over every sequence of calls, each registered probe has had exactly one outcome emitted, or was
-- discarded unanswered, or is the one probe still to have its outcome.
pub one_outcome_each :
    (os : List Op)
    → let (p, t) = run os new_probe_tracker zero_tally in
      t.registrations ≡ t.outcomes + t.discards + live p
one_outcome_each os = run_balance os new_probe_tracker zero_tally refl

abbrev pub AnswerIsSound : ProbeRecord → Type 0
AnswerIsSound r =
    r.status.state ≡ answered
    → (r.finished ≡ true)
      × (r.status.delivered_at ≤ r.status.answered_at)
      × (starts_with r.status.answer probe_answer_prefix ≡ true)

-- What the tracker promises of an answered probe.
abbrev pub IsSound : ProbeTracker → Type 0
IsSound p = (r : ProbeRecord) → p.cur ≡ some r → AnswerIsSound r

apply_sound :
    (o : Op) (p : ProbeTracker) (old r : ProbeRecord)
    → p.cur ≡ some old
    → AnswerIsSound old
    → (apply o p).0.cur ≡ some r
    → AnswerIsSound r
unfolding apply
apply_sound (register_op id text at) p old r e h g a = ground arith
apply_sound (discard_op id) p old r e h g a = ground arith
apply_sound finalize_op p old r e h g a = ground arith
apply_sound (enqueue_op content at) p old r e h g a = ground arith
apply_sound (removal_op at) p old r e h g a = ground arith
apply_sound (assistant_op text at) p old r e h g a = ground arith

apply_sound_none :
    (o : Op) (p : ProbeTracker) (r : ProbeRecord)
    → p.cur ≡ none
    → (apply o p).0.cur ≡ some r
    → AnswerIsSound r
unfolding apply
apply_sound_none (register_op id text at) p r e g a = ground arith
apply_sound_none _ p r e g a = ground arith

apply-IsSound : (o : Op) (p : ProbeTracker) → IsSound p → IsSound (apply o p).0
apply-IsSound o p h r g = elim (Option-cases p.cur) [
  | inl e ↦ apply_sound_none o p r e g
  | inr (old, e) ↦ apply_sound o p old r e (h old e) g
]

run-IsSound : (os : List Op) (p : ProbeTracker) (t : Tally) → IsSound p → IsSound (run os p t).0
unfolding run
run-IsSound [] p t h = h
run-IsSound (o ∷ os) p t h = run-IsSound os (apply o p).0 _ (apply-IsSound o p h)

-- Whatever calls are made, a probe that reads as answered has emitted its outcome, was answered no
-- earlier than it was delivered, and its answer begins with the marker.
pub answered_sound :
    (os : List Op) (r : ProbeRecord)
    → (run os new_probe_tracker zero_tally).0.cur ≡ some r
    → r.status.state ≡ answered
    → (r.finished ≡ true)
      × (r.status.delivered_at ≤ r.status.answered_at)
      × (starts_with r.status.answer probe_answer_prefix ≡ true)
answered_sound os r e a = run-IsSound os new_probe_tracker zero_tally (λ x g. cc) r e a

-- pending, delivered, answered.
abbrev pub rank : ProbeState → ℕ
rank pending = 0
rank delivered = 1
rank answered = 2

-- The same probe, at most one state further on; its stamps move only with the state.
pub record Forward (old r : ProbeRecord) : Type 0 where
  pub same_id : r.status.id ≡ old.status.id
  pub same_text : r.text ≡ old.text
  pub same_sent : r.status.sent_at ≡ old.status.sent_at
  pub no_return : rank old.status.state ≤ rank r.status.state
  pub one_step : rank r.status.state ≤ rank old.status.state + 1
  pub stamps :
      (rank r.status.state ≡ rank old.status.state + 1)
      ⊎ ((r.status.delivered_at ≡ old.status.delivered_at)
          × (r.status.answered_at ≡ old.status.answered_at))

module _ (p : ProbeTracker) (r : ProbeRecord) where
  stays_empty : (o : Op) → registers o ≡ 0 → p.cur ≡ none → (apply o p).0.cur ≡ some r → ⊥
  unfolding apply
  stays_empty (register_op id text at) n e g = ground arith
  stays_empty _ n e g = ground arith

  moves-Forward :
      (o : Op) (old : ProbeRecord)
      → registers o ≡ 0
      → p.cur ≡ some old
      → (apply o p).0.cur ≡ some r
      → Forward old r
  unfolding apply
  moves-Forward (register_op id text at) old n e g = absurd (omega arith)
  moves-Forward (discard_op id) old n e g = ground arith
  moves-Forward finalize_op old n e g = ground arith
  moves-Forward (enqueue_op content at) old n e g = ground arith
  moves-Forward (removal_op at) old n e g = ground arith
  moves-Forward (assistant_op text at) old n e g = ground arith

-- A call other than `Register` that leaves a probe leaves the one it found: the same id, text and
-- send time, its state the same or the next one, and its stamps unchanged unless the state moved.
pub step-Forward :
    (o : Op) (p : ProbeTracker) (r : ProbeRecord)
    → registers o ≡ 0
    → (apply o p).0.cur ≡ some r
    → (old : ProbeRecord) × (p.cur ≡ some old) × Forward old r
step-Forward o p r n g = elim (Option-cases p.cur) [
  | inl e ↦ absurd (stays_empty p r o n e g)
  | inr (old, e) ↦ (old, e, moves-Forward p r o old n e g)
]
