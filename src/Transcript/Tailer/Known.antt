-- ===== src/Transcript/Tailer/Known.antt =====
-- internal/transcript/tailer.go: the fixed sets of the counters' labels.
use text.Mathlib.Text.{starts_with}
use mathlib.Core.Path.{subst}
use tatara_claude_code_wrapp.Common.{
  contains, ◌≡◌, sym, refl, arith, inl, inr, true, false, List, [], ◌∷◌, ◌++◌, String, All,
  All-append, str_eq, if◌then◌else◌, ◌&&◌, ◌||◌, Bool,
}
use tatara_claude_code_wrapp.Transcript.Labels.{
  known_builtin_tools, known_queue_ops, known_non_message_types, known_issue_categories,
  known_issue_severities, tatara_tool_prefix, clamp_tool_name, clamp_queue_op,
  clamp_non_message_type,
}
use tatara_claude_code_wrapp.Transcript.Tailer.State.{Decoders, IssueInput, unreadable, readable}
use tatara_claude_code_wrapp.Transcript.Tailer.Steps.{outcome_label, report_of}
use tatara_claude_code_wrapp.Transcript.Tailer.Quiet.{IsEvent}

abbrev stream_types : List String
stream_types =
    "raw" ∷ "text" ∷ "thinking" ∷ "tool_use" ∷ "tool_result" ∷ "message_end" ∷ "other" ∷ []

abbrev pub is_stream_type : String → Bool
is_stream_type s = contains s known_non_message_types || contains s stream_types

abbrev pub is_tool : String → Bool
is_tool s = contains s known_builtin_tools || starts_with s tatara_tool_prefix || str_eq s "other"

abbrev pub is_queue_op : String → Bool
is_queue_op s = contains s known_queue_ops || str_eq s "other"

abbrev pub is_outcome : String → Bool
is_outcome s = str_eq s "success" || str_eq s "error"

abbrev pub is_call : String × String → Bool
is_call (tool, outcome) = is_tool tool && is_outcome outcome

abbrev pub is_issue : String × String → Bool
is_issue (category, severity) =
    contains category known_issue_categories && contains severity known_issue_severities

abbrev pub Pass : {A : Type 0} → (A → Bool) → List A → Type 0
Pass test xs = All (λ x. test x ≡ true) xs

pub Pass-append :
    {A : Type 0}
    → (test : A → Bool) (xs : List A) (x : A) → Pass test xs
    → test x ≡ true
    → Pass test (xs ++ x ∷ [])
Pass-append test xs x h e = All-append (λ y. test y ≡ true) xs (x ∷ []) h (e, tt)

pub other-is_tool : is_tool "other" ≡ true
unfolding contains
other-is_tool = refl

other-is_queue_op : is_queue_op "other" ≡ true
unfolding contains
other-is_queue_op = refl

if_passes :
    (test : String → Bool) (b : Bool) (x y : String)
    → (b ≡ true → test x ≡ true)
    → (b ≡ false → test y ≡ true)
    → test (if b then x else y) ≡ true
if_passes test true x y p q = p refl
if_passes test false x y p q = q refl

pub clamp_tool_name-is_tool : (s : String) → is_tool (clamp_tool_name s) ≡ true
unfolding clamp_tool_name
clamp_tool_name-is_tool s =
    if_passes is_tool (contains s known_builtin_tools) s _ (λ e. ground (arith, e))
      (λ e.
        if_passes is_tool (starts_with s tatara_tool_prefix) s "other" (λ f. rw (e, f) refl)
          (λ f. other-is_tool))

pub clamp_queue_op-is_queue_op : (s : String) → is_queue_op (clamp_queue_op s) ≡ true
unfolding clamp_queue_op
clamp_queue_op-is_queue_op s =
    if_passes is_queue_op (contains s known_queue_ops) s "other" (λ e. ground (arith, e))
      (λ e. other-is_queue_op)

other-is_stream_type : contains "other" stream_types ≡ true
unfolding contains
other-is_stream_type = refl

clamp_type-is_stream_type : (s : String) → is_stream_type (clamp_non_message_type s) ≡ true
unfolding clamp_non_message_type
clamp_type-is_stream_type s = ground (arith, other-is_stream_type)

other-is_category : contains "other" known_issue_categories ≡ true
unfolding contains
other-is_category = refl

error-is_severity : contains "error" known_issue_severities ≡ true
unfolding contains
error-is_severity = refl

pub report-is_issue :
    (dec : Decoders) (i : IssueInput)
    → is_issue ((report_of dec i).category, (report_of dec i).severity) ≡ true
unfolding report_of
report-is_issue dec (unreadable err) = ground (arith, other-is_category, error-is_severity)
report-is_issue dec (readable i) = ground (arith, other-is_category, error-is_severity)

pub outcome_label-is_outcome : (b : Bool) → is_outcome (outcome_label b) ≡ true
outcome_label-is_outcome true = refl
outcome_label-is_outcome false = refl

abbrev IsStreamType : String → Type 0
IsStreamType s = is_stream_type s ≡ true

pub event-is_stream_type : (s : String) → IsEvent s → is_stream_type s ≡ true
unfolding contains
event-is_stream_type s (inl e) = subst IsStreamType (sym e) refl
event-is_stream_type s (inr (inl e)) = subst IsStreamType (sym e) refl
event-is_stream_type s (inr (inr (inl e))) = subst IsStreamType (sym e) refl
event-is_stream_type s (inr (inr (inr (inl e)))) = subst IsStreamType (sym e) refl
event-is_stream_type s (inr (inr (inr (inr (inl e))))) = subst IsStreamType (sym e) refl
event-is_stream_type s (inr (inr (inr (inr (inr (inl e)))))) = subst IsStreamType (sym e) refl
event-is_stream_type s (inr (inr (inr (inr (inr (inr (type, e))))))) =
    subst IsStreamType (sym e) (clamp_type-is_stream_type type)
