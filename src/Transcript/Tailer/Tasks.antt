-- ===== src/Transcript/Tailer/Tasks.antt =====
-- internal/transcript/tailer.go: the count of the subagents that are still running, which another
-- goroutine reads, agrees with the set of their ids.
use tatara_claude_code_wrapp.Common.{
  contains, if_holds, ◌≡◌, refl, arith, ◌+◌, inl, inr, true, false, List, [], ◌∷◌, Option, none,
  some, String, length, Bool-cases, eq_iff, str_eq, if◌then◌else◌, lookup, ◌&&◌, not, is_empty,
}
use tatara_claude_code_wrapp.Transcript.Labels.{task_tool_name}
use tatara_claude_code_wrapp.Transcript.Probe.{ProbeTracker}
use tatara_claude_code_wrapp.Transcript.Tailer.State.{
  ContentBlock, Decoders, Wiring, Tailer, new_tailer,
}
use tatara_claude_code_wrapp.Transcript.Tailer.Steps.{
  delete, note_task, finish_task, attribute, outcome_label, emit_internal_issue, fire_activity,
  accumulate_internal_issue, report_of, count_issue,
}
use tatara_claude_code_wrapp.Transcript.Tailer.Line.{Line, change_turn, process_lines}
use tatara_claude_code_wrapp.Transcript.Tailer.Quiet.{IsQuiet}
use tatara_claude_code_wrapp.Transcript.Tailer.Closed.{IsClosed, process_lines_closed}

-- No id stands in the list twice.
abbrev pub Distinct : List String → Type 0
Distinct [] = Unit
Distinct (x ∷ xs) = (contains x xs ≡ false) × Distinct xs

abbrev pub IsTracked : Tailer → Type 0
IsTracked t = (t.task_calls ≡ length t.task_use_ids) × Distinct t.task_use_ids

delete_absent : (id : String) (xs : List String) → contains id xs ≡ false → delete id xs ≡ xs
unfolding contains delete
delete_absent id [] h = refl
delete_absent id (x ∷ xs) h = ground (arith, delete_absent id xs)

length-delete :
    (id : String) (xs : List String)
    → Distinct xs
    → contains id xs ≡ true
    → length (delete id xs) + 1 ≡ length xs
unfolding contains delete
length-delete id [] d h = ground arith
length-delete id (x ∷ xs) d h =
    ground (arith, delete_absent id xs, length-delete id xs d.1, d.0, eq_iff x id)

contains-delete :
    (y id : String) (xs : List String) → contains y xs ≡ false → contains y (delete id xs) ≡ false
unfolding contains delete
contains-delete y id [] h = refl
contains-delete y id (x ∷ xs) h = ground (arith, contains-delete y id xs)

delete-Distinct : (id : String) (xs : List String) → Distinct xs → Distinct (delete id xs)
unfolding delete
delete-Distinct id [] d = tt
delete-Distinct id (x ∷ xs) d =
    let rest = delete-Distinct id xs d.1 in
    elim (Bool-cases (str_eq x id)) [
      | inl here ↦ rw here rest
      | inr there ↦ rw there (contains-delete x id xs d.0, rest)
    ]

-- The count and the ids change together, or not at all.
note_task-IsTracked : (b : ContentBlock) (t : Tailer) → IsTracked t → IsTracked (note_task b t)
note_task-IsTracked b t h =
    let fresh = not (contains b.id t.task_use_ids) in
    if_holds IsTracked (str_eq b.name task_tool_name && not (is_empty b.id) && fresh) _ t
      (λ e. (omega (arith, h.0), (ground arith, h.1))) (λ e. h)

finish_task-IsTracked : (id : String) (t : Tailer) → IsTracked t → IsTracked (finish_task id t)
finish_task-IsTracked id t h =
    if_holds IsTracked (contains id t.task_use_ids) _ t
      (λ e. (
        omega (arith, h.0, length-delete id t.task_use_ids h.1 e),
        delete-Distinct id t.task_use_ids h.1,
      ))
      (λ e. h)

change_turn-IsTracked : (id : String) (t : Tailer) → IsTracked t → IsTracked (change_turn id t)
unfolding change_turn
change_turn-IsTracked id t h =
    let renamed = t.wiring.tool_calls_counter && not (str_eq id t.tc_turn_id) in
    let t1 = if renamed then record t { tool_names = []; tc_turn_id = id } else t in
    let h1 : IsTracked t1 = if_holds IsTracked renamed _ t (λ e. h) (λ e. h) in
    if_holds IsTracked (str_eq id t1.task_turn_id) t1 _ (λ e. h1) (λ e. (refl, tt))

attribute-IsTracked :
    (id outcome : String) (t : Tailer) (o : Option String)
    → IsTracked t
    → IsTracked (attribute id outcome t o)
attribute-IsTracked id outcome t none h = h
attribute-IsTracked id outcome t (some name) h = h

IsTracked-IsQuiet : IsQuiet IsTracked
unfolding emit_internal_issue accumulate_internal_issue fire_activity
IsTracked-IsQuiet = record {
  counts = λ s t e h. if_holds IsTracked t.wiring.counter _ t (λ q. h) (λ q. h);
  fires = λ id b t h.
      if_holds IsTracked (t.wiring.on_activity && not (is_empty id)) _ t (λ q. h) (λ q. h);
  probes = λ p os t h. h;
  queues = λ q t h. h;
  counts_op = λ op t h. if_holds IsTracked t.wiring.queue_ops_counter _ t (λ q. h) (λ q. h);
  starts_task = note_task-IsTracked;
  starts_tool = λ b t h. if_holds IsTracked t.wiring.tool_calls_counter _ t (λ q. h) (λ q. h);
  ends_task = finish_task-IsTracked;
  ends_tool = λ id b t h.
      if_holds IsTracked (not t.wiring.tool_calls_counter) t _ (λ q. h)
        (λ q. attribute-IsTracked id (outcome_label b) t (lookup id t.tool_names) h);
  turns = change_turn-IsTracked;
}

IsTracked-IsClosed : IsClosed IsTracked
unfolding emit_internal_issue accumulate_internal_issue fire_activity
IsTracked-IsClosed = record {
  quiet = IsTracked-IsQuiet;
  issues = λ dec id input t h.
      let r = report_of dec (dec.issue input) in
      let h1 : IsTracked (count_issue r t) =
        if_holds IsTracked t.wiring.internal_issue_counter _ t (λ q. h) (λ q. h) in
      if_holds IsTracked (str_eq id (count_issue r t).ii_turn_id) _ _ (λ q. h1) (λ q. h1);
}

-- Over any lines of transcripts that a new tailer processes, with any turns in flight, any decoders
-- and any wiring, the number of the running subagents is the number of the ids that are kept, and no
-- id is kept twice.
pub tracked :
    (wiring : Wiring) (probes : Option ProbeTracker) (dec : Decoders) (ls : List Line)
    → IsTracked (process_lines dec ls (new_tailer wiring probes))
unfolding new_tailer
tracked wiring probes dec ls =
    process_lines_closed IsTracked IsTracked-IsClosed dec ls (new_tailer wiring probes) (refl, tt)
