-- ===== src/Transcript/Tailer/Ledger.antt =====
-- internal/transcript/tailer.go: what the tailer promises about internal issues: a ledger to which
-- the reports of a transcript are posted.
use tatara_claude_code_wrapp.Common.{
  List, [], ◌∷◌, ◌++◌, Option, none, some, String, str_eq, if◌then◌else◌, ◌&&◌,
}
use tatara_claude_code_wrapp.Transcript.Labels.{internal_issue_tool_name}
use tatara_claude_code_wrapp.Transcript.Tailer.State.{
  TranscriptMsg, TranscriptEntry, ContentBlock, Decoders, Tailer,
}
use tatara_claude_code_wrapp.Transcript.Tailer.Steps.{report_of}
use tatara_claude_code_wrapp.Transcript.Tailer.Line.{Line, trim_newlines, is_blank}
use tatara_claude_code_wrapp.Turn.Records.{InternalIssueReport}

-- The reports that a transcript carries, read off its entries alone.
abbrev pub block_reports : Decoders → Option ContentBlock → List InternalIssueReport
block_reports dec none = []
block_reports dec (some b) =
    if str_eq b.type "tool_use" && str_eq b.name internal_issue_tool_name
    then report_of dec (dec.issue b.input) ∷ []
    else []

abbrev pub content_reports : Decoders → List String → List InternalIssueReport
content_reports dec [] = []
content_reports dec (raw ∷ raws) = block_reports dec (dec.block raw) ++ content_reports dec raws

abbrev pub message_reports : Decoders → Option TranscriptMsg → List InternalIssueReport
message_reports dec none = []
message_reports dec (some msg) = content_reports dec msg.content

abbrev pub entry_reports : Decoders → Option TranscriptEntry → List InternalIssueReport
entry_reports dec none = []
entry_reports dec (some e) = message_reports dec e.message

unfoldable pub line_reports : Decoders → Line → List InternalIssueReport
line_reports dec l =
    if is_blank (trim_newlines l.raw)
    then []
    else entry_reports dec (dec.entry (trim_newlines l.raw))

-- The ledger: the turn of the reports that are kept, and these.
abbrev pub Ledger : Type 0
Ledger = String × List InternalIssueReport

abbrev pub post : String → InternalIssueReport → Ledger → Ledger
post id r (turn, rs) = if str_eq id turn then (turn, rs ++ r ∷ []) else (id, r ∷ [])

abbrev pub post_all : String → List InternalIssueReport → Ledger → Ledger
post_all id [] b = b
post_all id (r ∷ rs) b = post_all id rs (post id r b)

unfoldable pub post_lines : Decoders → List Line → Ledger → Ledger
post_lines dec [] b = b
post_lines dec (l ∷ ls) b = post_lines dec ls (post_all l.turn_id (line_reports dec l) b)

abbrev pub ledger : Tailer → Ledger
ledger t = (t.ii_turn_id, t.internal_issues)

-- The reports of all the lines, in order.
abbrev pub reported : Decoders → List Line → List InternalIssueReport
reported dec [] = []
reported dec (l ∷ ls) = line_reports dec l ++ reported dec ls
