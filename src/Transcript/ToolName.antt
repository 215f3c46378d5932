-- ===== src/Transcript/ToolName.antt =====
-- internal/transcript/result.go: the name of a tool without the prefix of its server.
use Prim.Native.String.{String, [], ◌∷◌, len, slice}
use text.Mathlib.Text.{starts_with}
use tatara_claude_code_wrapp.Common.{Option, none, some, if◌then◌else◌}

abbrev or_here : Option String → Option String → Option String
or_here (some rest) here = some rest
or_here none here = here

-- What stands behind the last "__", if there is one.
unfoldable pub behind_last : String → Option String
behind_last [] = none
behind_last (c ∷ s) =
    or_here (behind_last s)
      (if starts_with (c ∷ s) "__" then some (slice (c ∷ s) 2 (len (c ∷ s))) else none)

abbrev pub name_or : String → Option String → String
name_or name none = name
name_or name (some rest) = rest

unfoldable pub bare_tool_name : String → String
unfolding behind_last
bare_tool_name name = name_or name (behind_last name)
