-- ===== src/Transcript/Result/Laws.antt =====
-- internal/transcript/result.go: the last line of the right kind decides what is read.
use tatara_claude_code_wrapp.Common.{
  ◌≡◌, ap, true, false, List, ◌∷◌, ◌++◌, Option, some, String, is_empty, if◌then◌else◌, str_eq,
  arith, ◌∙◌,
}
use tatara_claude_code_wrapp.Transcript.Scan.{scanned, AllSkip, scan_last}
use tatara_claude_code_wrapp.Transcript.Result.{
  RoleLine, last_message, is_message, stop_of, note_message, InterruptLine, Block, was_interrupted,
  note_interrupt, verdict, AssistantLine, last_assistant, note_assistant, text_of,
}

-- The last message line of a transcript gives the role and the stop reason, whatever comes before
-- it, and whatever other lines come after it.
last_message_decides :
    (decode : String → Option RoleLine) (before after : List String) (l : String) (rl : RoleLine)
    → decode l ≡ some rl
    → is_message rl.type ≡ true
    → AllSkip (λ x. note_message (decode x)) after
    → last_message decode (scanned (before ++ l ∷ after) false) ≡ some (rl.type, stop_of rl.message)
unfolding last_message
last_message_decides decode before after l rl d h s =
    ap some (scan_last (λ x. note_message (decode x)) before after l ("", "") s ∙ rw (d, h))

-- The last conversation entry decides whether a transcript ends in an interruption: it does exactly
-- if that entry is a user's and holds the marker, whatever interruptions and prompts precede it.
pub was_interrupted_decides :
    (decode : String → Option InterruptLine) (blocks : String → Option (List Block))
    (before after : List String) (l : String) (il : InterruptLine)
    → decode l ≡ some il
    → is_message il.type ≡ true
    → AllSkip (λ x. note_interrupt blocks (decode x)) after
    → was_interrupted decode blocks (scanned (before ++ l ∷ after) false) ≡ verdict blocks il
unfolding was_interrupted
was_interrupted_decides decode blocks before after l il d h s =
    scan_last (λ x. note_interrupt blocks (decode x)) before after l false s ∙ rw (d, h)

-- The last assistant line gives the usage and the stop reason; it gives the text too unless it has
-- none, and then the text is that of the transcript up to it.
pub last_assistant_decides :
    (decode : String → Option AssistantLine) (before after : List String) (l : String)
    (al : AssistantLine) (old : String × String × String)
    → decode l ≡ some al
    → str_eq al.type "assistant" ≡ true
    → AllSkip (λ x. note_assistant (decode x)) after
    → last_assistant decode (scanned before false) ≡ some old
    → last_assistant decode (scanned (before ++ l ∷ after) false)
      ≡ some (
        if is_empty (text_of al.content) then old.0 else text_of al.content,
        al.usage,
        al.stop_reason,
      )
unfolding last_assistant
last_assistant_decides decode before after l al old d h s o =
    ap some (scan_last (λ x. note_assistant (decode x)) before after l ("", "", "") s)
    ∙ rw (d, h) (ground (arith, o))
