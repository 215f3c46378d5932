-- ===== src/Bootstrap/Skills/Extra.antt =====
-- internal/bootstrap/skills.go: the extra sources of skills of a project. Git, the file system, the
-- decoder of JSON and the package `path/filepath` are parameters; the logs are left out.
pub mod Laws
mod Examples
use Prim.Native.Char.{Char, code}
use Prim.Native.String
use text.Mathlib.Text.{starts_with}
use tatara_claude_code_wrapp.Common.{
  ℕ, ◌+◌, ◌&&◌, ◌||◌, ◌==◌, not, Bool, true, false, List, [], ◌∷◌, ◌++◌, Option, none, some, String,
  if◌then◌else◌, is_empty, leb, trim_space, contains,
}
use tatara_claude_code_wrapp.Bootstrap.Git.{Git, Trace, after, succeeds}
use tatara_claude_code_wrapp.Bootstrap.Skills.Install.{
  Nodes, Installer, Installed, install_skills_from_src,
}
use tatara_claude_code_wrapp.Bootstrap.Skills.Clone.{
  init_args, remote_args, fetch_args, checkout_args,
}

pub record ExtraSkillSource : Type 0 where
  pub name : String
  pub url : String
  pub ref : String
  pub subdir : String

abbrev or_nil : Option (List ExtraSkillSource) → List ExtraSkillSource
or_nil none = []
or_nil (some ss) = ss

unfoldable pub parse_extra_skill_sources :
    (String → Option (List ExtraSkillSource)) → String → List ExtraSkillSource
unfolding trim_space
parse_extra_skill_sources json raw = if is_empty (trim_space raw) then [] else or_nil (json raw)

-- `[a-z0-9-]`.
abbrev pub is_name_char : Char → Bool
is_name_char c =
    (leb 97 (code c) && leb (code c) 122) || (leb 48 (code c) && leb (code c) 57) || code c == 45

unfoldable pub all_name_chars : String → Bool
all_name_chars String.[] = true
all_name_chars (String.◌∷◌ c s) =
    let rest = all_name_chars s in if is_name_char c then rest else false

-- `extraSkillSourceNameRE`.
unfoldable pub is_valid_name : String → Bool
unfolding all_name_chars
is_valid_name name = not (is_empty name) && all_name_chars name

-- `has_git` is whether a directory has a `.git`, and `tree` what stands below it, behind the commands
-- that have run.
pub record ExtraWorld : Type 0 where
  pub git : Git
  pub join : String → String → String
  pub clean : String → String
  pub is_abs : String → Bool
  pub has_git : Trace → String → Bool
  pub tree : Trace → String → Nodes
  pub installer : Installer
  pub base : String
  pub metrics : Bool

-- `removed` are the directories that were removed; `seen` the names that were taken.
pub record Extra : Type 0 where
  pub trace : Trace
  pub removed : List String
  pub seen : List String
  pub total : ℕ
  pub clone_failures : ℕ

abbrev pub ran : String → List String → Extra → Extra
ran dir args s = record s { trace = after dir args s.trace }

-- The state, and whether there was no error.
abbrev pub Cloned : Type 0
Cloned = Extra × Bool

abbrev pub check_out : ExtraWorld → String → Extra → Cloned
check_out w dir s = (ran dir checkout_args s, succeeds w.git dir checkout_args s.trace)

abbrev pub extra_ref : ExtraSkillSource → String
extra_ref src = if is_empty src.ref then "main" else src.ref

unfoldable pub fetch_extra : ExtraWorld → ExtraSkillSource → String → Extra → Cloned
fetch_extra w src dir s =
    let s1 = ran dir (fetch_args (extra_ref src)) s in
    if succeeds w.git dir (fetch_args (extra_ref src)) s.trace
    then check_out w dir s1
    else (s1, false)

unfoldable pub add_extra : ExtraWorld → ExtraSkillSource → String → Extra → Cloned
unfolding fetch_extra
add_extra w src dir s =
    let s1 = ran dir (remote_args src.url) s in
    if succeeds w.git dir (remote_args src.url) s.trace
    then fetch_extra w src dir s1
    else (s1, false)

unfoldable pub init_extra : ExtraWorld → ExtraSkillSource → String → Extra → Cloned
unfolding add_extra
init_extra w src dir s =
    let s1 = ran "" (init_args dir) s in
    if succeeds w.git "" (init_args dir) s.trace then add_extra w src dir s1 else (s1, false)

unfoldable pub clone_extra_skill_source : ExtraWorld → ExtraSkillSource → String → Extra → Cloned
unfolding init_extra
clone_extra_skill_source w src dir s =
    if w.has_git s.trace dir
    then (s, true)
    else init_extra w src dir (record s { removed = s.removed ++ dir ∷ [] })

abbrev pub counted : Option String → ℕ → Extra → Extra
counted none n s = record s { total = s.total + n }
counted (some e) n s = s

unfoldable pub install_cloned : ExtraWorld → ExtraSkillSource → String → Extra → Extra
unfolding install_skills_from_src
install_cloned w src dir s =
    let from = if is_empty src.subdir then dir else w.join dir src.subdir in
    let r = install_skills_from_src w.installer (w.tree s.trace from) in
    counted r.error r.installed s

abbrev pub count_clone_failure : ExtraWorld → Extra → Extra
count_clone_failure w s =
    if w.metrics then record s { clone_failures = s.clone_failures + 1 } else s

unfoldable pub take_source : ExtraWorld → ExtraSkillSource → Extra → Extra
unfolding clone_extra_skill_source install_cloned
take_source w src s =
    let dir = w.join w.base src.name in
    let done = clone_extra_skill_source w src dir s in
    if done.1 then install_cloned w src dir done.0 else count_clone_failure w done.0

abbrev pub is_http : String → Bool
is_http url = starts_with url "https://" || starts_with url "http://"

abbrev pub escapes : ExtraWorld → String → Bool
escapes w subdir = not (is_empty subdir) && (w.is_abs subdir || starts_with (w.clean subdir) "..")

-- The guards on the address and on the directory below the clone stand behind the mark of the name.
unfoldable pub take_named : ExtraWorld → ExtraSkillSource → Extra → Extra
unfolding take_source
take_named w src s =
    let s1 = record s { seen = src.name ∷ s.seen } in
    if not (is_http src.url) then s1 else if escapes w src.subdir then s1 else take_source w src s1

unfoldable pub install_source : ExtraWorld → ExtraSkillSource → Extra → Extra
unfolding take_named is_valid_name contains
install_source w src s =
    if is_empty src.name || is_empty src.url
    then s
    else if not (is_valid_name src.name)
    then s
    else if contains src.name s.seen
    then s
    else take_named w src s

unfoldable pub install_all : ExtraWorld → List ExtraSkillSource → Extra → Extra
unfolding install_source
install_all w [] s = s
install_all w (src ∷ srcs) s = install_all w srcs (install_source w src s)

-- `mkdir` is whether the directory of skills was made.
unfoldable pub install_extra_skill_sources :
    ExtraWorld → (String → Option (List ExtraSkillSource)) → String → Bool → Trace → Extra
unfolding install_all parse_extra_skill_sources
install_extra_skill_sources w json raw mkdir t =
    let none_yet : Extra = record {
      trace = t;
      removed = [];
      seen = [];
      total = 0;
      clone_failures = 0;
    } in
    if mkdir then install_all w (parse_extra_skill_sources json raw) none_yet else none_yet
