-- ===== src/Transcript/Tailer/Closed.antt =====
-- internal/transcript/tailer.go: a property that each small change of the tailer keeps is kept by
-- every line of a transcript.
use tatara_claude_code_wrapp.Common.{
  if_holds, refl, false, List, [], ◌∷◌, Option, none, some, String, Time, if◌then◌else◌, is_empty,
  str_eq, Bool-cases, inl, inr,
}
use tatara_claude_code_wrapp.Transcript.Labels.{internal_issue_tool_name}
use tatara_claude_code_wrapp.Transcript.Tailer.State.{
  TranscriptMsg, TranscriptEntry, ContentBlock, Decoders, Tailer, inc_counter,
}
use tatara_claude_code_wrapp.Transcript.Tailer.Steps.{
  classify_probe_enqueue, process_text, process_tool_use, entry_time, emit_internal_issue,
  note_task, note_tool,
}
use tatara_claude_code_wrapp.Transcript.Tailer.Line.{
  process_decoded_block, process_body, process_block, process_blocks, process_message,
  process_entry, Line, process_decoded, process_line, process_lines, trim_newlines, is_blank,
}
use tatara_claude_code_wrapp.Transcript.Tailer.Quiet.{
  IsQuiet, IsEvent, answer_holds, classify_holds, queue_op_holds, started_holds, result_holds,
}

-- The small changes of which every line is made.
pub record IsClosed (P : Tailer → Type 0) : Type 0 where
  pub quiet : IsQuiet P
  pub issues :
      (dec : Decoders) (id input : String) (t : Tailer)
      → P t
      → P (emit_internal_issue dec id input t)

pub thinking : (b : ContentBlock) → IsEvent (if is_empty b.thinking then "raw" else "thinking")
thinking b = elim (Bool-cases (is_empty b.thinking)) [
  | inl blank ↦ rw blank (inl refl)
  | inr full ↦ rw full (inr (inr (inl refl)))
]

module _ (P : Tailer → Type 0) (k : IsClosed P) where
  module _ (dec : Decoders) (id : String) where
    use_holds : (b : ContentBlock) (t : Tailer) → P t → P (process_tool_use dec id b t)
    unfolding process_tool_use
    use_holds b t h =
        let t1 = note_tool b (note_task b (inc_counter "tool_use" t)) in
        let h1 : P t1 = started_holds P k.quiet b t h in
        if_holds P (str_eq b.name internal_issue_tool_name) _ t1
          (λ e. k.issues dec id b.input t1 h1) (λ e. h1)

    module _ (role : String) (at : Time) where
      block_holds :
          (o : Option ContentBlock) (t : Tailer)
          → P t
          → P (process_decoded_block dec id role at o t)
      unfolding process_decoded_block process_text
      block_holds none t h = k.quiet.counts "raw" t (inl refl) h
      block_holds (some b) t h =
          if_holds P (str_eq b.type "text") _ _
            (λ e.
              answer_holds P k.quiet role b.text at _ _
                (k.quiet.counts "text" t (inr (inl refl)) h))
            (λ e.
              if_holds P (str_eq b.type "thinking") _ _ (λ e1. k.quiet.counts _ t (thinking b) h)
                (λ e1.
                  if_holds P (str_eq b.type "tool_use") _ _ (λ e2. use_holds b t h)
                    (λ e2.
                      if_holds P (str_eq b.type "tool_result") _ _
                        (λ e3. result_holds P k.quiet b t h)
                        (λ e3. k.quiet.counts "raw" t (inl refl) h))))

      blocks_holds :
          (raws : List String) (t : Tailer) → P t → P (process_blocks dec id role at raws t)
      unfolding process_blocks process_block
      blocks_holds [] t h = h
      blocks_holds (raw ∷ raws) t h = blocks_holds raws _ (block_holds (dec.block raw) t h)

    body_holds :
        (now : Time) (e : TranscriptEntry) (o : Option TranscriptMsg) (t : Tailer)
        → P t
        → P (process_body dec id now e o t)
    unfolding process_body process_message
    body_holds now e none t h =
        k.quiet.counts _ t (inr (inr (inr (inr (inr (inr (e.type, refl))))))) h
    body_holds now e (some msg) t h =
        let h1 = blocks_holds msg.role (entry_time dec now e) msg.content t h in
        if_holds P (is_empty msg.stop_reason) _ _ (λ q. h1)
          (λ q. k.quiet.counts "message_end" _ (inr (inr (inr (inr (inr (inl refl)))))) h1)

  line_holds :
      (dec : Decoders) (l : Line) (o : Option TranscriptEntry) (t : Tailer)
      → P t
      → P (process_decoded dec l o t)
  unfolding process_decoded process_entry classify_probe_enqueue
  line_holds dec l none t h =
      k.quiet.counts "raw" _ (inl refl)
        (k.quiet.turns l.turn_id _ (k.quiet.fires l.turn_id false t h))
  line_holds dec l (some e) t h =
      let h1 =
        k.quiet.turns l.turn_id _
          (k.quiet.fires l.turn_id _ _ (classify_holds P k.quiet dec l.now e t t.probes h)) in
      body_holds dec l.turn_id l.now e e.message _ (
        if_holds P (str_eq e.type "queue-operation") _ _
          (λ q. queue_op_holds P k.quiet dec l.now e _ h1) (λ q. h1))

  pub process_lines_closed :
      (dec : Decoders) (ls : List Line) (t : Tailer) → P t → P (process_lines dec ls t)
  unfolding process_lines process_line
  process_lines_closed dec [] t h = h
  process_lines_closed dec (l ∷ ls) t h = process_lines_closed dec ls (process_line dec l t) (
      if_holds P (is_blank (trim_newlines l.raw)) t _ (λ q. h)
        (λ q. line_holds dec l (dec.entry (trim_newlines l.raw)) t h))
