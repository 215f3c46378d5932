-- ===== src/Transcript/Tailer/Drain.antt =====
-- internal/transcript/tailer.go: the reports of internal issues that the end of a turn takes are
-- those of the turn.
use mathlib.Core.List.{append_assoc, append-nil}
use tatara_claude_code_wrapp.Common.{
  ◌≡◌, ◌∙◌, sym, ap, refl, inl, inr, false, List, [], ◌∷◌, ◌++◌, String, All, Bool-cases, str_eq,
  eq_refl, if◌then◌else◌, ◌||◌, not, is_empty,
}
use tatara_claude_code_wrapp.Transcript.Tailer.State.{Decoders, Tailer}
use tatara_claude_code_wrapp.Transcript.Tailer.Steps.{drain_internal_issues}
use tatara_claude_code_wrapp.Transcript.Tailer.Line.{Line, process_lines}
use tatara_claude_code_wrapp.Turn.Records.{InternalIssueReport}
use tatara_claude_code_wrapp.Transcript.Tailer.Ledger.{
  Ledger, ledger, post, post_all, post_lines, line_reports, reported,
}
use tatara_claude_code_wrapp.Transcript.Tailer.Issues.{process_lines-post_lines}

abbrev kept_for : String → Ledger → List InternalIssueReport
kept_for id (turn, rs) = if is_empty id || not (str_eq id turn) then [] else rs

drain-kept_for :
    (id : String) (t : Tailer) → (drain_internal_issues id t).1 ≡ kept_for id (ledger t)
unfolding drain_internal_issues
drain-kept_for id t = elim (Bool-cases (is_empty id || not (str_eq id t.ii_turn_id))) [
  | inl none_left ↦ rw (none_left, drain_internal_issues) refl
  | inr some_left ↦ rw (some_left, drain_internal_issues) refl
]

module _ (id : String) (named : is_empty id ≡ false) where
  kept_for-post :
      (r : InternalIssueReport) (b : Ledger) → kept_for id (post id r b) ≡ kept_for id b ++ r ∷ []
  kept_for-post r (turn, rs) = elim (Bool-cases (str_eq id turn)) [
    | inl same ↦ rw (same, named, same) refl
    | inr other ↦ rw (other, named, eq_refl id) refl
  ]

  kept_for-post_all :
      (rs : List InternalIssueReport) (b : Ledger)
      → kept_for id (post_all id rs b) ≡ kept_for id b ++ rs
  kept_for-post_all [] b = sym (append-nil (kept_for id b))
  kept_for-post_all (r ∷ rs) b =
      kept_for-post_all rs (post id r b)
      ∙ ap (λ x. x ++ rs) (kept_for-post r b)
      ∙ append_assoc (kept_for id b) (r ∷ []) rs

  kept_for-post_lines :
      (dec : Decoders) (ls : List Line) (b : Ledger)
      → All (λ (l : Line). l.turn_id ≡ id) ls
      → kept_for id (post_lines dec ls b) ≡ kept_for id b ++ reported dec ls
  unfolding post_lines
  kept_for-post_lines dec [] b a = sym (append-nil (kept_for id b))
  kept_for-post_lines dec (l ∷ ls) b (e, a) =
      kept_for-post_lines dec ls _ a
      ∙ ap (λ x. kept_for id (post_all x (line_reports dec l) b) ++ reported dec ls) e
      ∙ ap (λ x. x ++ reported dec ls) (kept_for-post_all (line_reports dec l) b)
      ∙ append_assoc (kept_for id b) (line_reports dec l) (reported dec ls)

-- What is drained for a turn after lines that were all processed while the turn was in flight is
-- what could be drained for it before them, followed by the reports that these lines carry, each of
-- them, once and in order. The turn's id is not empty.
pub drain-process_lines :
    (dec : Decoders) (id : String) (ls : List Line) (t : Tailer)
    → is_empty id ≡ false
    → All (λ (l : Line). l.turn_id ≡ id) ls
    → (drain_internal_issues id (process_lines dec ls t)).1
      ≡ (drain_internal_issues id t).1 ++ reported dec ls
drain-process_lines dec id ls t named a =
    drain-kept_for id (process_lines dec ls t)
    ∙ ap (kept_for id) (process_lines-post_lines dec ls t)
    ∙ kept_for-post_lines id named dec ls (ledger t) a
    ∙ ap (λ x. x ++ reported dec ls) (sym (drain-kept_for id t))
