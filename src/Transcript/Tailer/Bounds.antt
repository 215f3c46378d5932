-- ===== src/Transcript/Tailer/Bounds.antt =====
-- internal/transcript/tailer.go: the labels of the counters come from fixed sets, whatever an agent
-- writes into its transcript.
use tatara_claude_code_wrapp.Common.{
  if_holds, ◌≡◌, arith, inl, inr, true, List, [], ◌∷◌, Option, none, some, String, All, Bool-cases,
  str_eq, if◌then◌else◌, insert, lookup, ◌&&◌, not, is_empty,
}
use tatara_claude_code_wrapp.Transcript.Labels.{clamp_tool_name, clamp_queue_op}
use tatara_claude_code_wrapp.Transcript.Probe.{ProbeTracker}
use tatara_claude_code_wrapp.Transcript.Tailer.State.{Decoders, Wiring, Tailer, new_tailer}
use tatara_claude_code_wrapp.Transcript.Tailer.Steps.{
  delete_key, attribute, outcome_label, emit_internal_issue, fire_activity,
  accumulate_internal_issue, report_of, count_issue,
}
use tatara_claude_code_wrapp.Transcript.Tailer.Line.{Line, change_turn, process_lines}
use tatara_claude_code_wrapp.Transcript.Tailer.Known.{
  is_stream_type, is_tool, is_queue_op, is_outcome, is_call, is_issue, Pass, Pass-append,
  other-is_tool, clamp_tool_name-is_tool, clamp_queue_op-is_queue_op, report-is_issue,
  outcome_label-is_outcome, event-is_stream_type,
}
use tatara_claude_code_wrapp.Transcript.Tailer.Closed.{IsClosed, process_lines_closed}
use tatara_claude_code_wrapp.Transcript.Tailer.Quiet.{IsQuiet}

-- `kept` is about the names that a later result is counted under.
abbrev pub AreKnown : Tailer → Type 0
AreKnown t =
    Pass is_stream_type t.events
    × Pass is_call t.tool_calls
    × Pass is_queue_op t.queue_ops
    × Pass is_issue t.issue_counts
    × Pass (λ (p : String × String). is_tool p.1) t.tool_names

abbrev IsToolEntry : String × String → Type 0
IsToolEntry p = is_tool p.1 ≡ true

delete_key-All :
    (id : String) (m : List (String × String))
    → All IsToolEntry m
    → All IsToolEntry (delete_key id m)
unfolding delete_key
delete_key-All id [] h = tt
delete_key-All id ((k, v) ∷ m) h = elim (Bool-cases (str_eq k id)) [
  | inl here ↦ rw here (delete_key-All id m h.1)
  | inr there ↦ rw there (h.0, delete_key-All id m h.1)
]

insert-All :
    (id v : String) (m : List (String × String))
    → is_tool v ≡ true
    → All IsToolEntry m
    → All IsToolEntry (insert id v m)
unfolding insert
insert-All id v [] e h = (e, tt)
insert-All id v ((k, w) ∷ m) e h = elim (Bool-cases (str_eq k id)) [
  | inl here ↦ rw (here, insert) (e, h.1)
  | inr there ↦ rw (there, insert) (h.0, insert-All id v m e h.1)
]

abbrev IsToolName : Option String → Type 0
IsToolName none = Unit
IsToolName (some v) = is_tool v ≡ true

lookup-IsToolName :
    (id : String) (m : List (String × String)) → All IsToolEntry m → IsToolName (lookup id m)
unfolding lookup
lookup-IsToolName id [] h = tt
lookup-IsToolName id ((k, v) ∷ m) h = elim (Bool-cases (str_eq k id)) [
  | inl here ↦ rw (here, lookup) h.0
  | inr there ↦ rw (there, lookup) (lookup-IsToolName id m h.1)
]

attribute-AreKnown :
    (id outcome : String) (t : Tailer) (o : Option String)
    → is_outcome outcome ≡ true
    → IsToolName o
    → AreKnown t
    → AreKnown (attribute id outcome t o)
attribute-AreKnown id outcome t none e n (h, hc, hq, hi, hn) = (
  h,
  Pass-append is_call t.tool_calls ("other", outcome) hc (ground (arith, e, other-is_tool)),
  hq,
  hi,
  hn,
)
attribute-AreKnown id outcome t (some name) e n (h, hc, hq, hi, hn) = (
  h,
  Pass-append is_call t.tool_calls (name, outcome) hc (ground (arith, e, n)),
  hq,
  hi,
  delete_key-All id t.tool_names hn,
)

AreKnown-IsQuiet : IsQuiet AreKnown
unfolding emit_internal_issue accumulate_internal_issue fire_activity change_turn
AreKnown-IsQuiet = record {
  counts = λ s t e (h, hc, hq, hi, hn).
      if_holds AreKnown t.wiring.counter _ t
        (λ q. (Pass-append is_stream_type t.events s h (event-is_stream_type s e), hc, hq, hi, hn))
        (λ q. (h, hc, hq, hi, hn));
  fires = λ id b t h.
      if_holds AreKnown (t.wiring.on_activity && not (is_empty id)) _ t (λ q. h) (λ q. h);
  probes = λ p os t h. h;
  queues = λ q t h. h;
  counts_op = λ op t (h, hc, hq, hi, hn).
      if_holds AreKnown t.wiring.queue_ops_counter _ t
        (λ q. (
          h,
          hc,
          Pass-append is_queue_op t.queue_ops (clamp_queue_op op) hq
              (clamp_queue_op-is_queue_op op),
          hi,
          hn,
        ))
        (λ q. (h, hc, hq, hi, hn));
  starts_task = λ b t h. if_holds AreKnown _ _ t (λ q. h) (λ q. h);
  starts_tool = λ b t (h, hc, hq, hi, hn).
      if_holds AreKnown t.wiring.tool_calls_counter _ t
        (λ q. (
          h,
          hc,
          hq,
          hi,
          insert-All b.id (clamp_tool_name b.name) t.tool_names (clamp_tool_name-is_tool b.name) hn,
        ))
        (λ q. (h, hc, hq, hi, hn));
  ends_task = λ id t h. if_holds AreKnown _ _ t (λ q. h) (λ q. h);
  ends_tool = λ id b t h.
      if_holds AreKnown (not t.wiring.tool_calls_counter) t _ (λ q. h)
        (λ q.
          attribute-AreKnown id (outcome_label b) t (lookup id t.tool_names)
            (outcome_label-is_outcome b) (lookup-IsToolName id t.tool_names h.4) h);
  turns = λ id t (h, hc, hq, hi, hn).
      let renamed = t.wiring.tool_calls_counter && not (str_eq id t.tc_turn_id) in
      let t1 = if renamed then record t { tool_names = []; tc_turn_id = id } else t in
      let h1 : AreKnown t1 =
        if_holds AreKnown renamed _ t (λ e. (h, hc, hq, hi, tt)) (λ e. (h, hc, hq, hi, hn)) in
      if_holds AreKnown (str_eq id t1.task_turn_id) t1 _ (λ e. h1) (λ e. h1);
}

AreKnown-IsClosed : IsClosed AreKnown
unfolding emit_internal_issue accumulate_internal_issue fire_activity change_turn
AreKnown-IsClosed = record {
  quiet = AreKnown-IsQuiet;
  issues = λ dec id input t (h, hc, hq, hi, hn).
      let r = report_of dec (dec.issue input) in
      let h1 : AreKnown (count_issue r t) =
        if_holds AreKnown t.wiring.internal_issue_counter _ t
          (λ q. (
            h,
            hc,
            hq,
            Pass-append is_issue t.issue_counts (r.category, r.severity) hi
                (report-is_issue dec (dec.issue input)),
            hn,
          ))
          (λ q. (h, hc, hq, hi, hn)) in
      if_holds AreKnown (str_eq id (count_issue r t).ii_turn_id) _ _ (λ q. h1) (λ q. h1);
}

-- Over any lines of transcripts that a new tailer processes, with any turns in flight, any decoders
-- and any wiring, each counter is only incremented under the labels of its fixed set: a stream type,
-- a built-in tool, one of tatara's own or "other" with an outcome, a queue operation, and a category
-- with a severity.
pub labelled :
    (wiring : Wiring) (probes : Option ProbeTracker) (dec : Decoders) (ls : List Line)
    → AreKnown (process_lines dec ls (new_tailer wiring probes))
unfolding new_tailer
labelled wiring probes dec ls =
    process_lines_closed AreKnown AreKnown-IsClosed dec ls (new_tailer wiring probes)
      (tt, tt, tt, tt, tt)
