-- ===== src/Bootstrap/Git.antt =====
-- internal/bootstrap: the GitRunner. What git answers is a parameter, a function of the command and of
-- all the commands that were run before it.
use tatara_claude_code_wrapp.Common.{Bool, true, false, List, ◌∷◌, Option, none, some, String}

pub record Command : Type 0 where
  pub dir : String
  pub args : List String

-- What was run, the last command first.
abbrev pub Trace : Type 0
Trace = List Command

-- The error, if there is one.
abbrev pub Git : Type 0
Git = Trace → Command → Option String

abbrev pub command : String → List String → Command
command dir args = record { dir = dir; args = args }

abbrev pub after : String → List String → Trace → Trace
after dir args t = command dir args ∷ t

-- `git(dir, args...) == nil`, for a command that is run behind `t`.
abbrev pub is_nil : Option String → Bool
is_nil none = true
is_nil (some e) = false

abbrev pub succeeds : Git → String → List String → Trace → Bool
succeeds git dir args t = is_nil (git t (command dir args))
