-- ===== src/Transcript/Labels.antt =====
-- internal/transcript/tailer.go: the labels of the tailer's counters, and the names that they keep.
use text.Mathlib.Text.{starts_with}
use tatara_claude_code_wrapp.Common.{contains, List, [], ◌∷◌, String, if◌then◌else◌}

abbrev pub known_issue_categories : List String
known_issue_categories =
    "tool_error" ∷ "directive_contradiction" ∷ "workspace_broken" ∷ "memory_inconsistent"
    ∷ "graph_inconsistent" ∷ "auth" ∷ "other" ∷ []

abbrev pub known_issue_severities : List String
known_issue_severities = "warn" ∷ "error" ∷ []

abbrev pub known_builtin_tools : List String
known_builtin_tools =
    "Bash" ∷ "Read" ∷ "Edit" ∷ "Write" ∷ "Glob" ∷ "Grep" ∷ "Task" ∷ "TodoWrite" ∷ "WebFetch"
    ∷ "WebSearch" ∷ "NotebookEdit" ∷ []

abbrev pub known_queue_ops : List String
known_queue_ops = "enqueue" ∷ "remove" ∷ "dequeue" ∷ []

abbrev pub known_non_message_types : List String
known_non_message_types =
    "system" ∷ "summary" ∷ "user" ∷ "assistant" ∷ "queue-operation" ∷ "attachment"
    ∷ "file-history-snapshot" ∷ []

abbrev pub tatara_tool_prefix : String
tatara_tool_prefix = "mcp__tatara__"

abbrev pub task_tool_name : String
task_tool_name = "Task"

abbrev pub internal_issue_tool_name : String
internal_issue_tool_name = "mcp__tatara__report_internal_issue"

unfoldable pub clamp_tool_name : String → String
clamp_tool_name name =
    if contains name known_builtin_tools
    then name
    else if starts_with name tatara_tool_prefix
    then name
    else "other"

unfoldable pub clamp_queue_op : String → String
clamp_queue_op op = if contains op known_queue_ops then op else "other"

unfoldable pub clamp_non_message_type : String → String
clamp_non_message_type t = if contains t known_non_message_types then t else "other"

unfoldable pub clamp_severity : String → String
clamp_severity s = if contains s known_issue_severities then s else "error"

unfoldable pub clamp_category : String → String
clamp_category c = if contains c known_issue_categories then c else "other"
