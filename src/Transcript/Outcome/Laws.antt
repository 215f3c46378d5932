-- ===== src/Transcript/Outcome/Laws.antt =====
-- internal/transcript/result.go: the last result of an outcome tool decides.
use mathlib.Core.Path.{subst}
use tatara_claude_code_wrapp.Common.{
  ◌≡◌, ◌∙◌, ap, sym, refl, ◌&&◌, not, Bool, true, false, List, [], ◌∷◌, ◌++◌, Option, none, some,
  String, if◌then◌else◌, is_empty, str_eq, lookup, insert, eq_iff, lookup-insert, if_holds,
  Bool-cases, inl, inr, arith,
}
use tatara_claude_code_wrapp.Transcript.Scan.{scanned, scan}
use tatara_claude_code_wrapp.Transcript.ToolName.{bare_tool_name}
use tatara_claude_code_wrapp.Transcript.Outcome.{
  OutcomeBlock, Decoders, json_content_string, Outcomes, no_outcomes, note_use, note_result,
  call_of, note_block, note_blocks, blocks_in, text_of, first_failed, verdict,
  failed_critical_outcome, is_critical,
}
use tatara_claude_code_wrapp.Transcript.Outcome.Lone.{IsLone, unused, used, blocks-Lone}
use tatara_claude_code_wrapp.Transcript.Outcome.Calls.{
  calls, is_result_of, NoResult, called, uncalled,
}

-- All the blocks of the lines that decode, in order.
abbrev pub all_blocks : Decoders → List String → List OutcomeBlock
all_blocks dec [] = []
all_blocks dec (l ∷ ls) = blocks_in (dec.line l) ++ all_blocks dec ls

blocks-append :
    (dec : Decoders) (bs cs : List OutcomeBlock) (o : Outcomes)
    → note_blocks dec (bs ++ cs) o ≡ note_blocks dec cs (note_blocks dec bs o)
unfolding note_blocks
blocks-append dec [] cs o = refl
blocks-append dec (b ∷ bs) cs o = blocks-append dec bs cs (note_block dec b o)

scan-all_blocks :
    (dec : Decoders) (ls : List String) (o : Outcomes)
    → scan (λ l. note_blocks dec (blocks_in (dec.line l))) ls o
      ≡ note_blocks dec (all_blocks dec ls) o
unfolding scan note_blocks
scan-all_blocks dec [] o = refl
scan-all_blocks dec (l ∷ ls) o =
    scan-all_blocks dec ls (note_blocks dec (blocks_in (dec.line l)) o)
    ∙ sym (blocks-append dec (blocks_in (dec.line l)) (all_blocks dec ls) o)

verdict-note_use : (b : OutcomeBlock) (o : Outcomes) → verdict (note_use b o) ≡ verdict o
unfolding note_use verdict
verdict-note_use b o =
    if_holds (λ (x : Outcomes). verdict x ≡ verdict o)
      (is_critical (bare_tool_name b.name) && not (is_empty b.id)) _ o (λ f. refl) (λ f. refl)

not_called : (a c d : Bool) → (a && (c && d)) ≡ false → (a && c) ≡ true → d ≡ false
not_called a c d e f = ground arith

verdict-note_block :
    (dec : Decoders) (seen : List OutcomeBlock) (b : OutcomeBlock)
    → is_result_of seen b ≡ false
    → verdict (note_block dec b (note_blocks dec seen no_outcomes))
      ≡ verdict (note_blocks dec seen no_outcomes)
unfolding note_block note_result
verdict-note_block dec seen b no_result =
    let o = note_blocks dec seen no_outcomes in
    let Same = λ (x : Outcomes). verdict x ≡ verdict o in
    if_holds Same (str_eq b.type "tool_use") (note_use b o) _ (λ e. verdict-note_use b o)
      (λ e.
        if_holds Same (str_eq b.type "tool_result" && not (is_empty b.tool_use_id)) _ o
          (λ f.
            let other =
              not_called (str_eq b.type "tool_result") (not (is_empty b.tool_use_id))
                (calls seen b.tool_use_id) no_result f in
            ap (λ n. verdict (note_result dec b n o)) (uncalled dec seen b.tool_use_id other))
          (λ f. refl))

idle_verdict :
    (dec : Decoders) (seen bs : List OutcomeBlock)
    → NoResult seen bs
    → verdict (note_blocks dec bs (note_blocks dec seen no_outcomes))
      ≡ verdict (note_blocks dec seen no_outcomes)
unfolding note_blocks
idle_verdict dec seen [] h = refl
idle_verdict dec seen (b ∷ bs) h =
    let next = blocks-append dec seen (b ∷ []) no_outcomes in
    ap (λ o. verdict (note_blocks dec bs o)) (sym next)
    ∙ idle_verdict dec (seen ++ b ∷ []) bs h.1
    ∙ ap verdict next
    ∙ verdict-note_block dec seen b h.0

-- What the last result says.
abbrev pub outcome_of : Decoders → OutcomeBlock → Option (String × String)
outcome_of dec b =
    if b.is_error then some ("submit_outcome", json_content_string dec b.content) else none

insert_lone :
    (c : Bool) (m : List (String × Bool))
    → IsLone m
    → insert "submit_outcome" c m ≡ ("submit_outcome", c) ∷ []
unfolding insert
insert_lone c _ unused = refl
insert_lone c _ (used b) = refl

found :
    (text : String) (m : List (String × String))
    → lookup "submit_outcome" (insert "submit_outcome" text m) ≡ some text
found text m = lookup-insert "submit_outcome" "submit_outcome" text m

not_both : (b : Bool) → b ≡ false → b ≡ true → ⊥
not_both true e f = cc
not_both false e f = cc

two_types : (s : String) → str_eq s "tool_result" ≡ true → str_eq s "tool_use" ≡ true → ⊥
two_types s e =
    not_both (str_eq s "tool_use")
      (subst (λ x. str_eq x "tool_use" ≡ false) (sym ((eq_iff s "tool_result").0 e)) refl)

result_verdict :
    (dec : Decoders) (b : OutcomeBlock) (o : Outcomes)
    → IsLone o.last_failed
    → verdict (note_result dec b (some "submit_outcome") o) ≡ outcome_of dec b
unfolding verdict note_result
result_verdict dec b o lone =
    let text = json_content_string dec b.content in
    elim (Bool-cases b.is_error) [
      | inl failed ↦
          rw (failed, note_result)
            (ap (λ m. first_failed m (insert "submit_outcome" text o.last_result))
                (insert_lone true o.last_failed lone)
              ∙ ap (λ x. some ("submit_outcome", text_of x)) (found text o.last_result))
      | inr passed ↦
          rw (passed, note_result)
            (ap (λ m. first_failed m (insert "submit_outcome" "" o.last_result))
              (insert_lone false o.last_failed lone))
    ]

result_step :
    (dec : Decoders) (b : OutcomeBlock) (o : Outcomes)
    → str_eq b.type "tool_result" ≡ true
    → is_empty b.tool_use_id ≡ false
    → note_block dec b o ≡ note_result dec b (call_of b.tool_use_id o) o
unfolding note_block
result_step dec b o e n =
    if_holds (λ x. x ≡ note_result dec b (call_of b.tool_use_id o) o) (str_eq b.type "tool_use") _ _
      (λ f. absurd (two_types b.type e f)) (λ f. rw (e, n) refl)

parts : (a c d : Bool) → (a && (c && d)) ≡ true → (a ≡ true) × (c ≡ true) × (d ≡ true)
parts a c d e = ground arith

negated : (a : Bool) → not a ≡ true → a ≡ false
negated a e = ground arith

-- The last result of a call of the outcome tool decides, whatever blocks stand behind it, results of
-- other tools and further calls too: a failure is reported with its text, and a success clears every
-- failure before it. The scan does not fail.
pub failed_outcome_decides :
    (dec : Decoders) (ls : List String) (before after : List OutcomeBlock) (b : OutcomeBlock)
    → all_blocks dec ls ≡ before ++ b ∷ after
    → is_result_of before b ≡ true
    → NoResult (before ++ b ∷ []) after
    → failed_critical_outcome dec (scanned ls false) ≡ some (outcome_of dec b)
unfolding failed_critical_outcome note_blocks
failed_outcome_decides dec ls before after b split result idle =
    let o = note_blocks dec before no_outcomes in
    let p =
      parts (str_eq b.type "tool_result") (not (is_empty b.tool_use_id))
        (calls before b.tool_use_id) result in
    let next = blocks-append dec before (b ∷ []) no_outcomes in
    ap (λ x. some (verdict x)) (scan-all_blocks dec ls no_outcomes)
    ∙ ap (λ x. some (verdict (note_blocks dec x no_outcomes))) split
    ∙ ap (λ x. some (verdict x)) (blocks-append dec before (b ∷ after) no_outcomes)
    ∙ ap (λ x. some (verdict (note_blocks dec after x))) (sym next)
    ∙ ap some (idle_verdict dec (before ++ b ∷ []) after idle)
    ∙ ap (λ x. some (verdict x)) next
    ∙ ap (λ x. some (verdict x)) (result_step dec b o p.0 (negated (is_empty b.tool_use_id) p.1))
    ∙ ap (λ x. some (verdict (note_result dec b x o))) (called dec before b.tool_use_id p.2)
    ∙ ap some (result_verdict dec b o (blocks-Lone dec before no_outcomes (tt, unused)).1)

-- If there is no such result, no failure is reported.
pub NoResult-failed_critical_outcome :
    (dec : Decoders) (ls : List String)
    → NoResult [] (all_blocks dec ls)
    → failed_critical_outcome dec (scanned ls false) ≡ some none
unfolding failed_critical_outcome note_blocks verdict first_failed
NoResult-failed_critical_outcome dec ls idle =
    ap (λ x. some (verdict x)) (scan-all_blocks dec ls no_outcomes)
    ∙ ap some (idle_verdict dec [] (all_blocks dec ls) idle)
