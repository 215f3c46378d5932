-- ===== src/Bootstrap/Skills/Install.antt =====
-- internal/bootstrap/skills.go: the walk over a source of skills, and the copies that it makes. The
-- directories below a source are a tree, in the order in which `filepath.Walk` visits them.
pub mod Spec
mod Examples
use tatara_claude_code_wrapp.Common.{
  ℕ, zero, suc, ◌+◌, Bool, true, false, List, [], ◌∷◌, ◌++◌, Option, none, some, String,
  if◌then◌else◌, is_empty, ◌+++◌,
}
use tatara_claude_code_wrapp.Bootstrap.Push.{Paths}
use tatara_claude_code_wrapp.Bootstrap.Skills.{should_install, parse_profiles}

-- The `SKILL.md` of a directory.
pub data SkillFile : Type 0 where
  missing unreadable : SkillFile
  holds : String → SkillFile

-- A listing that fails is a child that does.
mutual
  pub data Node : Type 0 where
    file : Node
    broken : String → Node
    dir : String → SkillFile → Nodes → Node

  pub data Nodes : Type 0 where
    nil : Nodes
    cons : Node → Nodes → Nodes

-- `targets` are where skills were copied to, in order.
pub record Installed : Type 0 where
  pub installed : ℕ
  pub targets : List String
  pub error : Option String

-- The paths, the decoder of a header, the profile of the pod, and what a copy to a target says.
pub record Installer : Type 0 where
  pub paths : Paths
  pub yaml : String → Option (List String)
  pub profile : String
  pub dst : String
  pub copy_skill_dir : String → String → Option String

abbrev pub target_of : Installer → String → String
target_of x path = x.paths.join x.dst (x.paths.base path)

abbrev pub copied : String → Option String → Installed → Installed
copied target none r = record r { installed = r.installed + 1; targets = r.targets ++ target ∷ [] }
copied target (some e) r = record r { error = some ("copy skill: " +++ e) }

unfoldable pub install_skill : Installer → String → String → Installed → Installed
unfolding should_install parse_profiles
install_skill x path skill_md r =
    if should_install x.profile (parse_profiles x.yaml skill_md)
    then copied (target_of x path) (x.copy_skill_dir path (target_of x path)) r
    else r

-- An error ends the walk.
abbrev pub unless_failed : Option String → Installed → Installed → Installed
unless_failed none r rest = rest
unless_failed (some e) r rest = r

unfoldable mutual
  unfolding install_skill

  pub walk : Installer → Node → Installed → Installed
  walk x file r = r
  walk x (broken e) r = record r { error = some e }
  walk x (dir path missing below) r = walk_all x below r
  walk x (dir path unreadable below) r = walk_all x below r
  walk x (dir path (holds skill_md) below) r = install_skill x path skill_md r

  pub walk_all : Installer → Nodes → Installed → Installed
  walk_all x nil r = r
  walk_all x (cons n ns) r =
      let r' = walk x n r in let rest = walk_all x ns r' in unless_failed r'.error r' rest

abbrev pub none_yet : Installed
none_yet = record { installed = 0; targets = []; error = none }

-- The source itself is never a skill.
unfoldable pub install_skills_from_src : Installer → Nodes → Installed
unfolding walk_all
install_skills_from_src x below = walk_all x below none_yet

-- A source of the configuration: its path, and the tree that stands there, if any does.
pub record Source : Type 0 where
  pub path : String
  pub tree : Option Nodes

abbrev pub added : Installed → Installed → Installed
added total r = record {
  installed = total.installed + r.installed;
  targets = total.targets ++ r.targets;
  error = r.error;
}

-- The count of a source that fails is not added.
abbrev pub unless_source_failed : Option String → Installed → Installed → Installed → Installed
unless_source_failed none total r rest = rest
unless_source_failed (some e) total r rest = record {
  installed = total.installed;
  targets = total.targets ++ r.targets;
  error = some ("install skills: " +++ e);
}

unfoldable pub install_sources : Installer → List Source → Installed → Installed
unfolding install_skills_from_src
install_sources x [] total = total
install_sources x (s ∷ ss) total =
    let skipped = install_sources x ss total in
    if is_empty s.path then skipped else (elim s.tree [
      | none ↦ skipped
      | some below ↦
          let r = install_skills_from_src x below in
          unless_source_failed r.error total r (install_sources x ss (added total r))
    ])

-- `mkdir` is the error of making the directory of skills.
unfoldable pub install_skills : Installer → Option String → List Source → Installed
unfolding install_sources
install_skills x none sources = install_sources x sources none_yet
install_skills x (some e) sources = record none_yet { error = some ("mkdir skills: " +++ e) }

unfoldable pub has_skills_src : List Source → Bool
has_skills_src [] = false
has_skills_src (s ∷ ss) = let rest = has_skills_src ss in if is_empty s.path then rest else true
