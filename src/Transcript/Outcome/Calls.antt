-- ===== src/Transcript/Outcome/Calls.antt =====
-- internal/transcript/result.go: which results are those of the outcome tool.
use tatara_claude_code_wrapp.Common.{
  ◌≡◌, ◌∙◌, ap, refl, ◌&&◌, ◌||◌, not, Bool, true, false, List, [], ◌∷◌, ◌++◌, Option, none, some,
  String, if◌then◌else◌, is_empty, str_eq, lookup, eq_iff, lookup-insert, arith, Bool-cases, inl,
  inr,
}
use tatara_claude_code_wrapp.Transcript.ToolName.{bare_tool_name}
use tatara_claude_code_wrapp.Transcript.Outcome.{
  OutcomeBlock, Decoders, Outcomes, no_outcomes, note_use, note_result, call_of, note_block,
  note_blocks,
}

-- A call of the outcome tool, under an id.
abbrev pub is_call_of : String → OutcomeBlock → Bool
is_call_of id b =
    str_eq b.type "tool_use"
    && str_eq (bare_tool_name b.name) "submit_outcome"
    && not (is_empty b.id)
    && str_eq b.id id

-- One of the blocks is such a call.
unfoldable pub calls : List OutcomeBlock → String → Bool
calls [] id = false
calls (b ∷ bs) id = is_call_of id b || calls bs id

-- A result of a call of the outcome tool among the blocks before it.
abbrev pub is_result_of : List OutcomeBlock → OutcomeBlock → Bool
is_result_of seen b =
    str_eq b.type "tool_result" && (not (is_empty b.tool_use_id) && calls seen b.tool_use_id)

-- None of the blocks behind `seen` is a result of a call of the outcome tool. Results of other tools,
-- and further calls, may stand among them.
abbrev pub NoResult : List OutcomeBlock → List OutcomeBlock → Type 0
NoResult seen [] = Unit
NoResult seen (b ∷ bs) = (is_result_of seen b ≡ false) × NoResult (seen ++ b ∷ []) bs

abbrev outcome_if : Bool → Option String → Option String
outcome_if b other = if b then some "submit_outcome" else other

call_of-note_use :
    (b : OutcomeBlock) (id : String) (o : Outcomes)
    → str_eq b.type "tool_use" ≡ true
    → call_of id (note_use b o) ≡ outcome_if (is_call_of id b) (call_of id o)
unfolding note_use
call_of-note_use b id o e = ground (
  arith,
  e,
  lookup-insert id b.id (bare_tool_name b.name) o.tool_use_by_id,
  eq_iff (bare_tool_name b.name) "submit_outcome",
)

call_of-note_result :
    (dec : Decoders) (b : OutcomeBlock) (id : String) (name : Option String) (o : Outcomes)
    → call_of id (note_result dec b name o) ≡ call_of id o
unfolding note_result
call_of-note_result dec b id none o = refl
call_of-note_result dec b id (some name) o = ground arith

call_of-note_block :
    (dec : Decoders) (b : OutcomeBlock) (id : String) (o : Outcomes)
    → call_of id (note_block dec b o) ≡ outcome_if (is_call_of id b) (call_of id o)
unfolding note_block
call_of-note_block dec b id o = elim (Bool-cases (str_eq b.type "tool_use")) [
  | inl uses ↦ ground (arith, uses, call_of-note_use b id o uses)
  | inr other ↦ ground (arith, other, call_of-note_result dec b id (call_of b.tool_use_id o) o)
]

either_call :
    (a c : Bool) (other : Option String)
    → outcome_if c (outcome_if a other) ≡ outcome_if (a || c) other
either_call true true other = refl
either_call true false other = refl
either_call false true other = refl
either_call false false other = refl

-- The map knows the calls that were made.
pub call_of-note_blocks :
    (dec : Decoders) (bs : List OutcomeBlock) (id : String) (o : Outcomes)
    → call_of id (note_blocks dec bs o) ≡ outcome_if (calls bs id) (call_of id o)
unfolding note_blocks calls
call_of-note_blocks dec [] id o = refl
call_of-note_blocks dec (b ∷ bs) id o =
    call_of-note_blocks dec bs id (note_block dec b o)
    ∙ ap (outcome_if (calls bs id)) (call_of-note_block dec b id o)
    ∙ either_call (is_call_of id b) (calls bs id) (call_of id o)

pub called :
    (dec : Decoders) (seen : List OutcomeBlock) (id : String)
    → calls seen id ≡ true
    → call_of id (note_blocks dec seen no_outcomes) ≡ some "submit_outcome"
unfolding lookup
called dec seen id e = call_of-note_blocks dec seen id no_outcomes ∙ ap (λ b. outcome_if b none) e

pub uncalled :
    (dec : Decoders) (seen : List OutcomeBlock) (id : String)
    → calls seen id ≡ false
    → call_of id (note_blocks dec seen no_outcomes) ≡ none
unfolding lookup
uncalled dec seen id e = call_of-note_blocks dec seen id no_outcomes ∙ ap (λ b. outcome_if b none) e
