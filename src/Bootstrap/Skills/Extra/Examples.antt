-- ===== src/Bootstrap/Skills/Extra/Examples.antt =====
-- internal/bootstrap/skills.go: a source whose name leaves the base, and one that cannot be fetched.
use tatara_claude_code_wrapp.Common.{
  ◌≡◌, refl, true, false, List, [], ◌∷◌, Option, none, some, String, ◌+++◌, str_eq, if◌then◌else◌,
  trim_space, contains,
}
use tatara_claude_code_wrapp.Bootstrap.Skills.Install.{nil}
use tatara_claude_code_wrapp.Bootstrap.Skills.Extra.{
  ExtraSkillSource, ExtraWorld, install_extra_skill_sources,
}
use tatara_claude_code_wrapp.Bootstrap.Skills.Extra.Laws.{
  StaysConfined, install_extra_skill_sources-StaysConfined,
}

abbrev world : ExtraWorld
world = record {
  git = λ t c. if str_eq c.dir "" then none else some "exit 128";
  join = λ a b. a +++ "/" +++ b;
  clean = λ a. a;
  is_abs = λ a. false;
  has_git = λ t dir. false;
  tree = λ t dir. nil;
  installer = record {
    paths = record { join = λ a b. a +++ "/" +++ b; clean = λ a. a; base = λ a. a };
    yaml = λ header. none;
    profile = "";
    dst = "/workspace/.claude/skills";
    copy_skill_dir = λ path target. none;
  };
  base = "/workspace/.extra-skills";
  metrics = true;
}

abbrev sources : List ExtraSkillSource
sources =
    record { name = "../../etc"; url = "https://host/evil"; ref = ""; subdir = "" }
    ∷ record { name = "mtg"; url = "https://host/mtg"; ref = ""; subdir = "" }
    ∷ record { name = "mtg"; url = "https://host/again"; ref = ""; subdir = "" }
    ∷ []

abbrev json : String → Option (List ExtraSkillSource)
json raw = some sources

install_extra_skill_sources-StaysConfined_example :
    StaysConfined world (install_extra_skill_sources world json "[]" true [])
install_extra_skill_sources-StaysConfined_example =
    install_extra_skill_sources-StaysConfined world json "[]" true

only_one_removed :
    ((install_extra_skill_sources world json "[]" true []).removed
      ≡ "/workspace/.extra-skills/mtg" ∷ [])
    × ((install_extra_skill_sources world json "[]" true []).clone_failures ≡ 1)
unfolding install_extra_skill_sources trim_space contains
only_one_removed = (refl, refl)
