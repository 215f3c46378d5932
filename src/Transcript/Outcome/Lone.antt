-- ===== src/Transcript/Outcome/Lone.antt =====
-- internal/transcript/result.go: only the one critical tool has results.
use mathlib.Core.Path.{subst}
use tatara_claude_code_wrapp.Common.{
  ◌≡◌, sym, arith, ◌&&◌, not, Bool, true, false, List, [], ◌∷◌, Option, none, some, String,
  is_empty, str_eq, lookup, insert, All, eq_iff, if_holds, Bool-cases, inl, inr,
}
use tatara_claude_code_wrapp.Transcript.ToolName.{bare_tool_name}
use tatara_claude_code_wrapp.Transcript.Outcome.{
  OutcomeBlock, Decoders, Outcomes, note_use, note_result, call_of, note_block, note_blocks,
  is_critical,
}

abbrev pub Named : List (String × String) → Type 0
Named m = All (λ (p : String × String). p.1 ≡ "submit_outcome") m

-- Only the one critical tool has results.
pub data IsLone : List (String × Bool) → Type 0 where
  unused : IsLone []
  used : (b : Bool) → IsLone (("submit_outcome", b) ∷ [])

abbrev pub Lone : Outcomes → Type 0
Lone o = Named o.tool_use_by_id × IsLone o.last_failed

insert-Named :
    (id name : String) (m : List (String × String))
    → name ≡ "submit_outcome"
    → Named m
    → Named (insert id name m)
unfolding insert
insert-Named id name [] e h = (e, tt)
insert-Named id name ((k, v) ∷ m) e h = elim (Bool-cases (str_eq k id)) [
  | inl here ↦ rw (here, insert) (e, h.1)
  | inr there ↦ rw (there, insert) (h.0, insert-Named id name m e h.1)
]

insert-IsLone :
    (name : String) (b : Bool) (m : List (String × Bool))
    → name ≡ "submit_outcome"
    → IsLone m
    → IsLone (insert name b m)
unfolding insert
insert-IsLone name b _ e unused = subst (λ n. IsLone ((n, b) ∷ [])) (sym e) (used b)
insert-IsLone name b _ e (used c) =
    subst (λ n. IsLone (insert n b (("submit_outcome", c) ∷ []))) (sym e) (used b)

abbrev IsNamed : Option String → Type 0
IsNamed none = Unit
IsNamed (some name) = name ≡ "submit_outcome"

lookup-IsNamed : (id : String) (m : List (String × String)) → Named m → IsNamed (lookup id m)
unfolding lookup
lookup-IsNamed id [] h = tt
lookup-IsNamed id ((k, v) ∷ m) h = elim (Bool-cases (str_eq k id)) [
  | inl here ↦ rw (here, lookup) h.0
  | inr there ↦ rw (there, lookup) (lookup-IsNamed id m h.1)
]

note_use-Lone : (b : OutcomeBlock) (o : Outcomes) → Lone o → Lone (note_use b o)
unfolding note_use
note_use-Lone b o (named, lone) =
    if_holds Lone (is_critical (bare_tool_name b.name) && not (is_empty b.id)) _ o
      (λ e. (
        insert-Named b.id (bare_tool_name b.name) o.tool_use_by_id
            (ground (arith, e, eq_iff (bare_tool_name b.name) "submit_outcome")) named,
        lone,
      ))
      (λ e. (named, lone))

note_result-Lone :
    (dec : Decoders) (b : OutcomeBlock) (name : Option String) (o : Outcomes)
    → IsNamed name
    → Lone o
    → Lone (note_result dec b name o)
unfolding note_result
note_result-Lone dec b none o n h = h
note_result-Lone dec b (some name) o n (named, lone) =
    if_holds Lone b.is_error _ _ (λ e. (named, insert-IsLone name true o.last_failed n lone))
      (λ e. (named, insert-IsLone name false o.last_failed n lone))

pub blocks-Lone :
    (dec : Decoders) (bs : List OutcomeBlock) (o : Outcomes) → Lone o → Lone (note_blocks dec bs o)
unfolding note_blocks note_block
blocks-Lone dec [] o h = h
blocks-Lone dec (b ∷ bs) o h = blocks-Lone dec bs (note_block dec b o) (
    if_holds Lone (str_eq b.type "tool_use") _ _ (λ e. note_use-Lone b o h)
      (λ e.
        if_holds Lone (str_eq b.type "tool_result" && not (is_empty b.tool_use_id)) _ o
          (λ f.
            note_result-Lone dec b (call_of b.tool_use_id o) o
              (lookup-IsNamed b.tool_use_id o.tool_use_by_id h.0) h)
          (λ f. h)))
