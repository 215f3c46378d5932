-- ===== src/Bootstrap/Skills/Clone/Examples.antt =====
-- internal/bootstrap/skills.go: a warm restart with a moved ref, and the boot after it.
use tatara_claude_code_wrapp.Common.{◌≡◌, refl, true, false, [], ◌∷◌, none, some}
use tatara_claude_code_wrapp.Bootstrap.Skills.Clone.{
  CloneParams, Remote, Site, ref_of, with_credentials, clone_skills_repo,
}
use tatara_claude_code_wrapp.Bootstrap.Skills.Clone.Laws.{Careful}
use tatara_claude_code_wrapp.Bootstrap.Skills.Clone.Whole.{
  clone_skills_repo-Careful, clone_is_reused,
}

abbrev params : CloneParams
params = record {
  skills_repo = "https://github.com/org/skills";
  skills_ref = "v2";
  skills_clone_dir = "/etc/wrapper/skills";
  staging = "/etc/wrapper/skills.staging";
  has_token = true;
  metrics = true;
}

-- Everything works.
abbrev remote : Remote
remote = record {
  git = λ t c. none;
  fetched = λ t. record { has_git = true; sentinel = none; content = "skills" };
  writes_sentinel = λ t. true;
  stat_fails = λ t. false;
  removal = λ t d. none;
  renames = λ t. true;
}

-- Git is out of reach.
abbrev offline : Remote
offline = record remote { git = λ t c. some "exit 128" }

abbrev site : Site
site = record {
  trace = [];
  dst = some (record { has_git = true; sentinel = some "v1"; content = "old skills" });
  waits = [];
  clone_failures = 0;
}

clone_skills_repo-Careful_example :
    Careful remote params (ref_of params) site.dst (clone_skills_repo remote params site)
clone_skills_repo-Careful_example = clone_skills_repo-Careful remote params site

clone_is_reused_example :
    clone_skills_repo remote params (clone_skills_repo remote params site)
    ≡ with_credentials params (clone_skills_repo remote params site)
unfolding clone_skills_repo
clone_is_reused_example = clone_is_reused remote params site refl refl refl refl refl

offline_keeps :
    ((clone_skills_repo offline params site).dst ≡ site.dst)
    × ((clone_skills_repo offline params site).waits ≡ 1 ∷ 2 ∷ [])
    × ((clone_skills_repo offline params site).clone_failures ≡ 1)
unfolding clone_skills_repo
offline_keeps = (refl, refl, refl)
