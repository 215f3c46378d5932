-- ===== src/Transcript/Tailer/Quiet.antt =====
-- internal/transcript/tailer.go: a property that each small change of the tailer keeps is kept by
-- the steps that report no internal issue.
use tatara_claude_code_wrapp.Common.{
  if_holds, ◌≡◌, ◌⊎◌, ◌||◌, not, refl, Bool, List, Option, none, some, String, Time, str_eq,
  Bool-cases, inl, inr,
}
use tatara_claude_code_wrapp.Common.Int.{ℤ}
use tatara_claude_code_wrapp.Transcript.Labels.{clamp_queue_op, clamp_non_message_type}
use tatara_claude_code_wrapp.Transcript.Probe
use tatara_claude_code_wrapp.Transcript.Probe.{ProbeTracker, ProbeOutcome}
use tatara_claude_code_wrapp.Transcript.Queue.{QueueTracker}
use tatara_claude_code_wrapp.Transcript.Tailer.State.{
  TranscriptEntry, ContentBlock, Decoders, Tailer, inc_counter,
}
use tatara_claude_code_wrapp.Transcript.Tailer.Steps.{
  note_answer, observe, classify_with, fire_activity, process_queue_operation, process_tool_result,
  note_task, note_tool, finish_task, finish_tool, count_queue_op,
}
use tatara_claude_code_wrapp.Transcript.Tailer.Line.{change_turn}

-- The labels that the tailer's events are counted under.
abbrev pub IsEvent : String → Type 0
IsEvent s =
    (s ≡ "raw")
    ⊎ (s ≡ "text")
    ⊎ (s ≡ "thinking")
    ⊎ (s ≡ "tool_use")
    ⊎ (s ≡ "tool_result")
    ⊎ (s ≡ "message_end")
    ⊎ ((type : String) × (s ≡ clamp_non_message_type type))

-- The small changes that do not report an internal issue.
pub record IsQuiet (P : Tailer → Type 0) : Type 0 where
  pub counts : (s : String) (t : Tailer) → IsEvent s → P t → P (inc_counter s t)
  pub fires : (id : String) (b : Bool) (t : Tailer) → P t → P (fire_activity id b t)
  pub probes :
      (p : Option ProbeTracker) (os : List (ProbeOutcome × ℤ)) (t : Tailer)
      → P t
      → P (record t { probes = p; observed = os })
  pub queues : (q : QueueTracker) (t : Tailer) → P t → P (record t { queue = q })
  pub counts_op : (op : String) (t : Tailer) → P t → P (count_queue_op (clamp_queue_op op) t)
  pub starts_task : (b : ContentBlock) (t : Tailer) → P t → P (note_task b t)
  pub starts_tool : (b : ContentBlock) (t : Tailer) → P t → P (note_tool b t)
  pub ends_task : (id : String) (t : Tailer) → P t → P (finish_task id t)
  pub ends_tool : (id : String) (b : Bool) (t : Tailer) → P t → P (finish_tool id b t)
  pub turns : (id : String) (t : Tailer) → P t → P (change_turn id t)

module _ (P : Tailer → Type 0) (c : IsQuiet P) where
  pub answer_holds :
      (role text : String) (at : Time) (t : Tailer) (o : Option ProbeTracker)
      → P t
      → P (note_answer role text at t o)
  unfolding note_answer
  answer_holds role text at t none h = h
  answer_holds role text at t (some p) h =
      if_holds P (not (str_eq role "assistant")) _ _ (λ e. h)
        (λ e.
          c.probes (some (Probe.note_assistant_text text at p).0)
            (observe (Probe.note_assistant_text text at p).1 t.observed) t h)

  pub classify_holds :
      (dec : Decoders) (now : Time) (e : TranscriptEntry) (t : Tailer) (o : Option ProbeTracker)
      → P t
      → P (classify_with dec now e t o).0
  unfolding classify_with
  classify_holds dec now e t none h = h
  classify_holds dec now e t (some p) h =
      elim (Bool-cases (
        not (str_eq e.type "queue-operation")
        || not (str_eq (clamp_queue_op e.operation) "enqueue"))) [
          | inl other ↦ rw (other, classify_with) h
          | inr parked ↦ rw (parked, classify_with) (c.probes _ t.observed t h)
        ]

  pub queue_op_holds :
      (dec : Decoders) (now : Time) (e : TranscriptEntry) (t : Tailer)
      → P t
      → P (process_queue_operation dec now e t)
  unfolding process_queue_operation
  queue_op_holds dec now e t h =
      let op = clamp_queue_op e.operation in
      let h1 = c.counts_op e.operation t h in
      if_holds P (str_eq op "enqueue") _ _ (λ q. c.queues _ _ h1)
        (λ q.
          if_holds P (str_eq op "remove" || str_eq op "dequeue") _ _
            (λ d. c.probes _ _ _ (c.queues _ _ h1)) (λ d. h1))

  pub started_holds :
      (b : ContentBlock) (t : Tailer)
      → P t
      → P (note_tool b (note_task b (inc_counter "tool_use" t)))
  started_holds b t h =
      c.starts_tool b _ (c.starts_task b _ (c.counts "tool_use" t (inr (inr (inr (inl refl)))) h))

  pub result_holds : (b : ContentBlock) (t : Tailer) → P t → P (process_tool_result b t)
  unfolding process_tool_result
  result_holds b t h =
      c.ends_tool b.tool_use_id b.is_error _ (
        c.ends_task b.tool_use_id _ (c.counts "tool_result" t (inr (inr (inr (inr (inl refl))))) h))
