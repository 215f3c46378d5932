-- ===== src/Bootstrap/Skills/Install/Examples.antt =====
-- internal/bootstrap/skills.go: a source with a category, a skill for reviews, and one for all.
use text.Mathlib.Text.{◌==◌ as same_text}
use tatara_claude_code_wrapp.Common.{
  ◌≡◌, refl, [], ◌∷◌, none, some, String, length, ◌+++◌, if◌then◌else◌,
}
use tatara_claude_code_wrapp.Bootstrap.Skills.{parse_profiles}
use tatara_claude_code_wrapp.Bootstrap.Skills.Install.{
  Nodes, nil, cons, dir, file, missing, holds, Installer, install_skills_from_src,
}
use tatara_claude_code_wrapp.Bootstrap.Skills.Install.Spec.{
  AreListed, skills_of, chosen, targets_of, install_skills_from_src_lem,
}

-- The header of a skill for reviews is the only one that decodes to profiles.
abbrev installer : Installer
installer = record {
  paths = record {
    join = λ a b. a +++ "/" +++ b;
    clean = λ a. a;
    base = λ a. if same_text a "/src/git/review" then "review" else "notes";
  };
  yaml = λ header. if same_text header "profiles: [review]" then some ("review" ∷ []) else none;
  profile = "builder";
  dst = "/workspace/.claude/skills";
  copy_skill_dir = λ path target. none;
}

abbrev review_md : String
review_md = "---\r\nprofiles: [review]\r\n---\r\ntext"

abbrev source : Nodes
source =
    cons (dir "/src/git" missing (cons (dir "/src/git/review" (holds review_md) nil) nil))
      (cons file (cons (dir "/src/notes" (holds "no header") (cons file nil)) nil))

source_listed : AreListed source
unfolding AreListed
source_listed = ((tt, tt), (tt, (tt, tt)))

install_skills_from_src_lem_example : install_skills_from_src installer source ≡ record {
  installed = length (chosen installer (skills_of source));
  targets = targets_of installer (chosen installer (skills_of source));
  error = none;
}
install_skills_from_src_lem_example =
    install_skills_from_src_lem installer source (λ path target. refl) source_listed

review_is_read : parse_profiles installer.yaml review_md ≡ "review" ∷ []
unfolding parse_profiles
review_is_read = refl

only_notes :
    install_skills_from_src installer source
    ≡ record { installed = 1; targets = "/workspace/.claude/skills/notes" ∷ []; error = none }
unfolding install_skills_from_src
only_notes = refl
