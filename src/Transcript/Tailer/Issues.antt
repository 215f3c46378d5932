-- ===== src/Transcript/Tailer/Issues.antt =====
-- internal/transcript/tailer.go: what the tailer keeps of the internal issues is a ledger.
use mathlib.Core.Path.{subst}
use tatara_claude_code_wrapp.Common.{
  if_holds, ◌≡◌, ◌∙◌, sym, ap, refl, inl, inr, true, false, List, [], ◌∷◌, ◌++◌, Option, none, some,
  String, Time, Bool-cases, str_eq, eq_iff, if◌then◌else◌, lookup, ◌&&◌, not, is_empty,
}
use tatara_claude_code_wrapp.Transcript.Labels.{internal_issue_tool_name}
use tatara_claude_code_wrapp.Transcript.Tailer.State.{
  TranscriptMsg, TranscriptEntry, ContentBlock, Decoders, Tailer,
}
use tatara_claude_code_wrapp.Transcript.Tailer.Steps.{
  attribute, outcome_label, emit_internal_issue, fire_activity, accumulate_internal_issue,
  report_of, count_issue, classify_probe_enqueue, process_tool_use, process_text, entry_time,
}
use tatara_claude_code_wrapp.Transcript.Tailer.Line.{
  Line, change_turn, process_decoded_block, process_block, process_blocks, process_message,
  process_body, process_entry, process_decoded, process_line, process_lines, trim_newlines,
  is_blank, note_queue_operation,
}
use tatara_claude_code_wrapp.Transcript.Tailer.Closed.{thinking}
use tatara_claude_code_wrapp.Transcript.Tailer.Ledger.{
  Ledger, ledger, post, post_all, post_lines, line_reports, entry_reports, message_reports,
  content_reports, block_reports,
}
use tatara_claude_code_wrapp.Transcript.Tailer.Quiet.{
  IsQuiet, answer_holds, classify_holds, queue_op_holds, started_holds, result_holds,
}
use tatara_claude_code_wrapp.Turn.Records.{InternalIssueReport}

abbrev At : Ledger → Tailer → Type 0
At b t = ledger t ≡ b

attribute-At :
    (b : Ledger) (id outcome : String) (t : Tailer) (o : Option String)
    → At b t
    → At b (attribute id outcome t o)
attribute-At b id outcome t none h = h
attribute-At b id outcome t (some name) h = h

change_turn-At : (b : Ledger) (id : String) (t : Tailer) → At b t → At b (change_turn id t)
unfolding change_turn
change_turn-At b id t h =
    let renamed = t.wiring.tool_calls_counter && not (str_eq id t.tc_turn_id) in
    let t1 = if renamed then record t { tool_names = []; tc_turn_id = id } else t in
    let h1 : At b t1 = if_holds (At b) renamed _ t (λ e. h) (λ e. h) in
    if_holds (At b) (str_eq id t1.task_turn_id) t1 _ (λ e. h1) (λ e. h1)

At-IsQuiet : (b : Ledger) → IsQuiet (At b)
unfolding fire_activity
At-IsQuiet b = record {
  counts = λ s t e h. if_holds (At b) t.wiring.counter _ t (λ q. h) (λ q. h);
  fires =
      λ id o t h. if_holds (At b) (t.wiring.on_activity && not (is_empty id)) _ t (λ q. h) (λ q. h);
  probes = λ p os t h. h;
  queues = λ q t h. h;
  counts_op = λ op t h. if_holds (At b) t.wiring.queue_ops_counter _ t (λ q. h) (λ q. h);
  starts_task = λ c t h. if_holds (At b) _ _ t (λ q. h) (λ q. h);
  starts_tool = λ c t h. if_holds (At b) t.wiring.tool_calls_counter _ t (λ q. h) (λ q. h);
  ends_task = λ id t h. if_holds (At b) _ _ t (λ q. h) (λ q. h);
  ends_tool = λ id o t h.
      if_holds (At b) (not t.wiring.tool_calls_counter) t _ (λ q. h)
        (λ q. attribute-At b id (outcome_label o) t (lookup id t.tool_names) h);
  turns = change_turn-At b;
}

accumulate_lem :
    (id : String) (r : InternalIssueReport) (t : Tailer)
    → ledger (accumulate_internal_issue id r t) ≡ post id r (ledger t)
unfolding accumulate_internal_issue
accumulate_lem id r t = elim (Bool-cases (str_eq id t.ii_turn_id)) [
  | inl same ↦ rw (same, accumulate_internal_issue) refl
  | inr other ↦ rw (other, accumulate_internal_issue) refl
]

emit_lem :
    (dec : Decoders) (id input : String) (b : Ledger) (t : Tailer)
    → At b t
    → At (post id (report_of dec (dec.issue input)) b) (emit_internal_issue dec id input t)
unfolding emit_internal_issue
emit_lem dec id input b t h =
    let r = report_of dec (dec.issue input) in
    let h1 : At b (count_issue r t) =
      if_holds (At b) t.wiring.internal_issue_counter _ t (λ q. h) (λ q. h) in
    accumulate_lem id r (count_issue r t) ∙ ap (post id r) h1

not_use :
    (type other : String)
    → str_eq type other ≡ true
    → str_eq other "tool_use" ≡ false
    → str_eq type "tool_use" ≡ false
not_use type other e n = subst (λ s. str_eq s "tool_use" ≡ false) (sym ((eq_iff type other).0 e)) n

module _ (dec : Decoders) (id : String) where
  use_lem :
      (c : ContentBlock) (b : Ledger) (t : Tailer)
      → str_eq c.type "tool_use" ≡ true
      → At b t
      → At (post_all id (block_reports dec (some c)) b) (process_tool_use dec id c t)
  unfolding process_tool_use
  use_lem c b t e h =
      let h1 = started_holds (At b) (At-IsQuiet b) c t h in
      elim (Bool-cases (str_eq c.name internal_issue_tool_name)) [
        | inl issue ↦ rw (e, issue, process_tool_use) (emit_lem dec id c.input b _ h1)
        | inr other ↦ rw (e, other, process_tool_use) h1
      ]

  no_report :
      (c : ContentBlock) (b : Ledger)
      → str_eq c.type "tool_use" ≡ false
      → b ≡ post_all id (block_reports dec (some c)) b
  no_report c b e = rw e refl

  block_lem :
      (role : String) (at : Time) (o : Option ContentBlock) (b : Ledger) (t : Tailer)
      → At b t
      → At (post_all id (block_reports dec o) b) (process_decoded_block dec id role at o t)
  unfolding process_decoded_block process_text
  block_lem role at none b t h = (At-IsQuiet b).counts "raw" t (inl refl) h
  block_lem role at (some c) b t h =
      let q = At-IsQuiet b in
      let Posted = At (post_all id (block_reports dec (some c)) b) in
      if_holds Posted (str_eq c.type "text") _ _
        (λ e.
          answer_holds (At b) q role c.text at _ _ (q.counts "text" t (inr (inl refl)) h)
          ∙ no_report c b (not_use c.type "text" e refl))
        (λ e.
          if_holds Posted (str_eq c.type "thinking") _ _
            (λ f. q.counts _ t (thinking c) h ∙ no_report c b (not_use c.type "thinking" f refl))
            (λ f.
              if_holds Posted (str_eq c.type "tool_use") _ _ (λ g. use_lem c b t g h)
                (λ g.
                  if_holds Posted (str_eq c.type "tool_result") _ _
                    (λ k. result_holds (At b) q c t h ∙ no_report c b g)
                    (λ k. q.counts "raw" t (inl refl) h ∙ no_report c b g))))

  post_append :
      (rs ss : List InternalIssueReport) (b : Ledger)
      → post_all id (rs ++ ss) b ≡ post_all id ss (post_all id rs b)
  post_append [] ss b = refl
  post_append (r ∷ rs) ss b = post_append rs ss (post id r b)

  content_lem :
      (role : String) (at : Time) (raws : List String) (b : Ledger) (t : Tailer)
      → At b t
      → At (post_all id (content_reports dec raws) b) (process_blocks dec id role at raws t)
  unfolding process_blocks process_block
  content_lem role at [] b t h = h
  content_lem role at (raw ∷ raws) b t h =
      let rs = block_reports dec (dec.block raw) in
      content_lem role at raws (post_all id rs b) _ (block_lem role at (dec.block raw) b t h)
      ∙ sym (post_append rs (content_reports dec raws) b)

  body_lem :
      (now : Time) (e : TranscriptEntry) (o : Option TranscriptMsg) (b : Ledger) (t : Tailer)
      → At b t
      → At (post_all id (message_reports dec o) b) (process_body dec id now e o t)
  unfolding process_body process_message
  body_lem now e none b t h =
      (At-IsQuiet b).counts _ t (inr (inr (inr (inr (inr (inr (e.type, refl))))))) h
  body_lem now e (some msg) b t h =
      let h1 = content_lem msg.role (entry_time dec now e) msg.content b t h in
      let c = post_all id (content_reports dec msg.content) b in
      if_holds (At c) (is_empty msg.stop_reason) _ _ (λ q. h1)
        (λ q. (At-IsQuiet c).counts "message_end" _ (inr (inr (inr (inr (inr (inl refl)))))) h1)

entry_lem :
    (dec : Decoders) (l : Line) (o : Option TranscriptEntry) (b : Ledger) (t : Tailer)
    → At b t
    → At (post_all l.turn_id (entry_reports dec o) b) (process_decoded dec l o t)
unfolding process_decoded process_entry classify_probe_enqueue
entry_lem dec l none b t h =
    let q = At-IsQuiet b in
    let t1 = fire_activity l.turn_id false t in
    let t2 = change_turn l.turn_id t1 in
    q.counts "raw" t2 (inl refl) (q.turns l.turn_id t1 (q.fires l.turn_id false t h))
entry_lem dec l (some e) b t h =
    let q = At-IsQuiet b in
    let r = classify_probe_enqueue dec l.now e t in
    let t1 = fire_activity l.turn_id r.1 r.0 in
    let t2 = change_turn l.turn_id t1 in
    let t3 = note_queue_operation dec l.now e t2 in
    let h2 : At b t2 =
      q.turns l.turn_id t1
        (q.fires l.turn_id r.1 r.0 (classify_holds (At b) q dec l.now e t t.probes h)) in
    let h3 : At b t3 =
      if_holds (At b) (str_eq e.type "queue-operation") _ t2
        (λ f. queue_op_holds (At b) q dec l.now e t2 h2) (λ f. h2) in
    body_lem dec l.turn_id l.now e e.message b t3 h3

line_lem :
    (dec : Decoders) (l : Line) (t : Tailer)
    → ledger (process_line dec l t) ≡ post_all l.turn_id (line_reports dec l) (ledger t)
unfolding process_line line_reports
line_lem dec l t = elim (Bool-cases (is_blank (trim_newlines l.raw))) [
  | inl blank ↦ rw (blank, process_line, line_reports) refl
  | inr full ↦
      rw (full, process_line, line_reports)
        (entry_lem dec l (dec.entry (trim_newlines l.raw)) (ledger t) t refl)
]

-- Whatever the lines are, what the tailer keeps of the internal issues is the ledger to which the
-- reports of each line are posted, under the turn in flight at the line.
pub process_lines-post_lines :
    (dec : Decoders) (ls : List Line) (t : Tailer)
    → ledger (process_lines dec ls t) ≡ post_lines dec ls (ledger t)
unfolding process_lines post_lines
process_lines-post_lines dec [] t = refl
process_lines-post_lines dec (l ∷ ls) t =
    process_lines-post_lines dec ls (process_line dec l t)
    ∙ ap (post_lines dec ls) (line_lem dec l t)
