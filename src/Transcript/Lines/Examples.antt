-- ===== src/Transcript/Lines/Examples.antt =====
-- internal/transcript/tailer.go: the theorems on a line that arrived in two pieces.
use tatara_claude_code_wrapp.Common.{◌≤◌, ◌++◌, ◌≡◌, refl, arith, List, [], ◌∷◌, length}
use tatara_claude_code_wrapp.Transcript.Lines.{
  Bytes, same, Read, whole, at_end, follow, opened, read, keep_partial, keep_whole, hand,
  caught_up_to, Follower, hand_steps, polls, seen, seen_partial, seen_whole,
}
use tatara_claude_code_wrapp.Transcript.Lines.Laws.{concat, all_bytes}
use tatara_claude_code_wrapp.Transcript.Lines.Polls.{IsAmong, now, later, caught_up_handed}
use tatara_claude_code_wrapp.Transcript.Lines.Split.{split_lines, follow-split_lines}

abbrev pieces : List Read
pieces = at_end (123 ∷ 34 ∷ []) same ∷ whole (125 ∷ 10 ∷ []) ∷ at_end (123 ∷ []) same ∷ []

-- The line has been processed, and the position is not raised yet.
abbrev between : Follower
between = record { partial = []; read_pos = 0; handed = (123 ∷ 34 ∷ 125 ∷ 10 ∷ []) ∷ [] }

abbrev raised : Follower
raised = record between { read_pos = 4 }

raised-IsAmong : IsAmong raised (polls pieces opened)
unfolding polls seen seen_partial seen_whole read keep_partial keep_whole hand hand_steps
raised-IsAmong = later opened _ (later _ _ (later between _ (now _)))

caught_up_handed_example :
    (rest : Bytes) × (concat raised.handed ++ rest ≡ all_bytes pieces)
    × (4 ≤ length (concat raised.handed))
unfolding caught_up_to
caught_up_handed_example = caught_up_handed 4 pieces raised (tt, (tt, (tt, tt))) raised-IsAmong refl

follow-split_lines_example :
    split_lines (all_bytes pieces) ≡ ((follow pieces opened).handed, (follow pieces opened).partial)
follow-split_lines_example =
    follow-split_lines pieces (tt, (tt, (tt, tt)))
      ((refl, (refl, tt)), ((125 ∷ [], refl, (refl, tt)), ((refl, tt), tt))) (omega arith)
