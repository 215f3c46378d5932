-- ===== src/Transcript/Tailer/Steps.antt =====
-- internal/transcript/tailer.go: internal issues, queue operations, and the blocks of a message.
use tatara_claude_code_wrapp.Common.{
  contains, ◌+◌, ◌-◌, ◌&&◌, ◌||◌, not, ◌++◌, Bool, false, List, [], ◌∷◌, Option, none, some, String,
  Time, if◌then◌else◌, is_empty, str_eq, ◌+++◌, lookup, insert,
}
use tatara_claude_code_wrapp.Common.Int.{ℤ}
use tatara_claude_code_wrapp.Transcript.Labels.{
  task_tool_name, internal_issue_tool_name, clamp_tool_name, clamp_queue_op, clamp_severity,
  clamp_category,
}
use tatara_claude_code_wrapp.Transcript.Probe
use tatara_claude_code_wrapp.Transcript.Probe.{ProbeTracker, ProbeOutcome, Emission}
use tatara_claude_code_wrapp.Transcript.Queue
use tatara_claude_code_wrapp.Transcript.Queue.{QueueTracker, empty_queue}
use tatara_claude_code_wrapp.Turn.Records.{InternalIssueReport}
use tatara_claude_code_wrapp.Transcript.Tailer.State.{
  TranscriptEntry, ContentBlock, IssueInput, unreadable, readable, Decoders, Tailer, inc_counter,
}

unfoldable pub accumulate_internal_issue : String → InternalIssueReport → Tailer → Tailer
accumulate_internal_issue turn_id r t =
    if str_eq turn_id t.ii_turn_id
    then record t { internal_issues = t.internal_issues ++ r ∷ [] }
    else record t { internal_issues = r ∷ []; ii_turn_id = turn_id }

unfoldable pub drain_internal_issues : String → Tailer → Tailer × List InternalIssueReport
drain_internal_issues turn_id t =
    if is_empty turn_id || not (str_eq turn_id t.ii_turn_id)
    then (t, [])
    else (record t { internal_issues = []; ii_turn_id = "" }, t.internal_issues)

-- The report of an input.
unfoldable pub report_of : Decoders → IssueInput → InternalIssueReport
unfolding clamp_severity clamp_category
report_of dec (unreadable err) = record {
  category = "other";
  severity = "error";
  description = "internal issue report: unparseable input: " +++ err;
  offending_tool = "";
  resource_id = "";
}
report_of dec (readable i) = record {
  category = clamp_category i.category;
  severity = clamp_severity i.severity;
  description = dec.scrub i.description;
  offending_tool = dec.scrub i.offending_tool;
  resource_id = dec.scrub i.resource_id;
}

abbrev pub count_issue : InternalIssueReport → Tailer → Tailer
count_issue r t =
    if t.wiring.internal_issue_counter
    then record t { issue_counts = t.issue_counts ++ (r.category, r.severity) ∷ [] }
    else t

unfoldable pub emit_internal_issue : Decoders → String → String → Tailer → Tailer
unfolding accumulate_internal_issue
emit_internal_issue dec turn_id input t =
    let r = report_of dec (dec.issue input) in accumulate_internal_issue turn_id r (count_issue r t)

unfoldable pub fire_activity : String → Bool → Tailer → Tailer
fire_activity turn_id probe_originated t =
    if t.wiring.on_activity && not (is_empty turn_id)
    then record t { activity = t.activity ++ (turn_id, probe_originated) ∷ [] }
    else t

-- `now` is the clock, which is taken to stand still over one line.
abbrev pub entry_time : Decoders → Time → TranscriptEntry → Time
entry_time dec now e =
    if is_empty e.timestamp
    then now
    else elim (dec.parse_time e.timestamp) [ none ↦ now | some ts ↦ ts ]

unfoldable pub classify_with :
    Decoders → Time → TranscriptEntry → Tailer → Option ProbeTracker → Tailer × Bool
classify_with dec now e t none = (t, false)
classify_with dec now e t (some p) =
    if not (str_eq e.type "queue-operation") || not (str_eq (clamp_queue_op e.operation) "enqueue")
    then (t, false)
    else let r = Probe.note_enqueue (dec.queue_content_text e.content) (entry_time dec now e) p in
      (record t { probes = some r.0 }, r.1)

unfoldable pub classify_probe_enqueue : Decoders → Time → TranscriptEntry → Tailer → Tailer × Bool
unfolding classify_with
classify_probe_enqueue dec now e t = classify_with dec now e t t.probes

abbrev pub removal_from : Time → Option ProbeTracker → Option ProbeTracker
removal_from at none = none
removal_from at (some p) = some (Probe.note_removal at p)

abbrev pub removal_noted : Time → Tailer → Tailer
removal_noted at t = record t { probes = removal_from at t.probes }

abbrev pub count_queue_op : String → Tailer → Tailer
count_queue_op op t =
    if t.wiring.queue_ops_counter then record t { queue_ops = t.queue_ops ++ op ∷ [] } else t

unfoldable pub process_queue_operation : Decoders → Time → TranscriptEntry → Tailer → Tailer
process_queue_operation dec now e t =
    let op = clamp_queue_op e.operation in
    let t1 = count_queue_op op t in
    if str_eq op "enqueue"
    then record t1 { queue = Queue.enqueue e.content (entry_time dec now e) t1.queue }
    else if str_eq op "remove" || str_eq op "dequeue"
    then removal_noted (entry_time dec now e)
        (record t1 { queue = Queue.remove e.content t1.queue })
    else t1

abbrev pub observe : Emission → List (ProbeOutcome × ℤ) → List (ProbeOutcome × ℤ)
observe none os = os
observe (some o) os = os ++ o ∷ []

unfoldable pub note_answer : String → String → Time → Tailer → Option ProbeTracker → Tailer
note_answer role text at t none = t
note_answer role text at t (some p) =
    if not (str_eq role "assistant")
    then t
    else let r = Probe.note_assistant_text text at p in
      record t { probes = some r.0; observed = observe r.1 t.observed }

unfoldable pub process_text : String → String → Time → Tailer → Tailer
unfolding note_answer
process_text role text at t =
    note_answer role text at (inc_counter "text" t) (inc_counter "text" t).probes

abbrev pub note_task : ContentBlock → Tailer → Tailer
note_task b t =
    if str_eq b.name task_tool_name && not (is_empty b.id) && not (contains b.id t.task_use_ids)
    then record t { task_use_ids = b.id ∷ t.task_use_ids; task_calls = t.task_calls + 1 }
    else t

abbrev pub note_tool : ContentBlock → Tailer → Tailer
note_tool b t =
    if t.wiring.tool_calls_counter
    then record t { tool_names = insert b.id (clamp_tool_name b.name) t.tool_names }
    else t

unfoldable pub process_tool_use : Decoders → String → ContentBlock → Tailer → Tailer
unfolding emit_internal_issue contains
process_tool_use dec turn_id b t =
    let t1 = note_tool b (note_task b (inc_counter "tool_use" t)) in
    if str_eq b.name internal_issue_tool_name
    then emit_internal_issue dec turn_id b.input t1
    else t1

-- The set and the map without a key.
unfoldable pub delete : String → List String → List String
delete id [] = []
delete id (x ∷ xs) = let rest = delete id xs in if str_eq x id then rest else x ∷ rest

unfoldable pub delete_key : String → List (String × String) → List (String × String)
delete_key id [] = []
delete_key id ((k, v) ∷ m) =
    let rest = delete_key id m in if str_eq k id then rest else (k, v) ∷ rest

abbrev pub finish_task : String → Tailer → Tailer
finish_task id t =
    if contains id t.task_use_ids
    then record t { task_use_ids = delete id t.task_use_ids; task_calls = t.task_calls - 1 }
    else t

abbrev pub outcome_label : Bool → String
outcome_label is_error = if is_error then "error" else "success"

abbrev pub attribute : String → String → Tailer → Option String → Tailer
attribute id outcome t none = record t { tool_calls = t.tool_calls ++ ("other", outcome) ∷ [] }
attribute id outcome t (some name) = record t {
  tool_names = delete_key id t.tool_names;
  tool_calls = t.tool_calls ++ (name, outcome) ∷ [];
}

abbrev pub finish_tool : String → Bool → Tailer → Tailer
finish_tool id is_error t =
    if not t.wiring.tool_calls_counter
    then t
    else attribute id (outcome_label is_error) t (lookup id t.tool_names)

unfoldable pub process_tool_result : ContentBlock → Tailer → Tailer
unfolding contains delete delete_key
process_tool_result b t =
    finish_tool b.tool_use_id b.is_error (finish_task b.tool_use_id (inc_counter "tool_result" t))
