-- ===== src/Transcript/Tailer/Line.antt =====
-- internal/transcript/tailer.go: `processLine`, and the lines of a transcript one after the other.
use tatara_claude_code_wrapp.Common.{
  ℕ, ◌&&◌, ◌||◌, not, ◌==◌, Bool, true, false, List, [], ◌∷◌, Option, none, some, String, Time,
  if◌then◌else◌, is_empty, str_eq,
}
use tatara_claude_code_wrapp.Transcript.Labels.{clamp_non_message_type}
use tatara_claude_code_wrapp.Transcript.Lines.{Bytes}
use tatara_claude_code_wrapp.Transcript.Tailer.State.{
  TranscriptMsg, TranscriptEntry, ContentBlock, Decoders, Tailer, inc_counter,
}
use tatara_claude_code_wrapp.Transcript.Tailer.Steps.{
  fire_activity, classify_probe_enqueue, process_queue_operation, process_text, process_tool_use,
  process_tool_result, entry_time,
}

unfoldable pub process_decoded_block :
    Decoders → String → String → Time → Option ContentBlock → Tailer → Tailer
unfolding process_text process_tool_use process_tool_result
process_decoded_block dec turn_id role at none t = inc_counter "raw" t
process_decoded_block dec turn_id role at (some b) t =
    if str_eq b.type "text"
    then process_text role b.text at t
    else if str_eq b.type "thinking"
    then inc_counter (if is_empty b.thinking then "raw" else "thinking") t
    else if str_eq b.type "tool_use"
    then process_tool_use dec turn_id b t
    else if str_eq b.type "tool_result"
    then process_tool_result b t
    else inc_counter "raw" t

unfoldable pub process_block : Decoders → String → String → Time → String → Tailer → Tailer
unfolding process_decoded_block
process_block dec turn_id role at raw t =
    process_decoded_block dec turn_id role at (dec.block raw) t

unfoldable pub process_blocks : Decoders → String → String → Time → List String → Tailer → Tailer
process_blocks dec turn_id role at [] t = t
process_blocks dec turn_id role at (raw ∷ raws) t =
    process_blocks dec turn_id role at raws (process_block dec turn_id role at raw t)

abbrev pub trim_end : ℕ → Bytes → Bytes
trim_end c [] = if c == 10 || c == 13 then [] else c ∷ []
trim_end c (d ∷ ds) = c ∷ d ∷ ds

-- The trailing newlines and carriage returns cut off.
unfoldable pub trim_newlines : Bytes → Bytes
trim_newlines [] = []
trim_newlines (c ∷ cs) = trim_end c (trim_newlines cs)

unfoldable pub change_turn : String → Tailer → Tailer
change_turn turn_id t0 =
    let t =
      if t0.wiring.tool_calls_counter && not (str_eq turn_id t0.tc_turn_id)
      then record t0 { tool_names = []; tc_turn_id = turn_id }
      else t0 in
    if str_eq turn_id t.task_turn_id
    then t
    else record t { task_use_ids = []; task_calls = 0; task_turn_id = turn_id }

abbrev pub end_message : String → Tailer → Tailer
end_message stop_reason t = if is_empty stop_reason then t else inc_counter "message_end" t

unfoldable pub process_message :
    Decoders → String → Time → TranscriptEntry → TranscriptMsg → Tailer → Tailer
unfolding process_blocks
process_message dec turn_id now e msg t =
    end_message msg.stop_reason
      (process_blocks dec turn_id msg.role (entry_time dec now e) msg.content t)

abbrev pub note_queue_operation : Decoders → Time → TranscriptEntry → Tailer → Tailer
note_queue_operation dec now e t =
    if str_eq e.type "queue-operation" then process_queue_operation dec now e t else t

unfoldable pub process_body :
    Decoders → String → Time → TranscriptEntry → Option TranscriptMsg → Tailer → Tailer
unfolding process_message
process_body dec turn_id now e none t = inc_counter (clamp_non_message_type e.type) t
process_body dec turn_id now e (some msg) t = process_message dec turn_id now e msg t

unfoldable pub process_entry : Decoders → String → Time → TranscriptEntry → Tailer → Tailer
unfolding process_body
process_entry dec turn_id now e t =
    process_body dec turn_id now e e.message (note_queue_operation dec now e t)

-- What a call of `processLine` meets: the line, the turn in flight, and the clock.
pub record Line : Type 0 where
  pub raw : Bytes
  pub turn_id : String
  pub now : Time

unfoldable pub process_decoded : Decoders → Line → Option TranscriptEntry → Tailer → Tailer
unfolding process_entry classify_probe_enqueue fire_activity change_turn
process_decoded dec l none t =
    inc_counter "raw" (change_turn l.turn_id (fire_activity l.turn_id false t))
process_decoded dec l (some e) t =
    let r = classify_probe_enqueue dec l.now e t in
    process_entry dec l.turn_id l.now e (change_turn l.turn_id (fire_activity l.turn_id r.1 r.0))

abbrev pub is_blank : Bytes → Bool
is_blank [] = true
is_blank (c ∷ cs) = false

unfoldable pub process_line : Decoders → Line → Tailer → Tailer
unfolding process_decoded trim_newlines
process_line dec l t =
    let raw = trim_newlines l.raw in
    if is_blank raw then t else process_decoded dec l (dec.entry raw) t

unfoldable pub process_lines : Decoders → List Line → Tailer → Tailer
process_lines dec [] t = t
process_lines dec (l ∷ ls) t = process_lines dec ls (process_line dec l t)
