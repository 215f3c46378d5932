-- ===== src/Bootstrap/Claim/Examples.antt =====
-- internal/bootstrap/resume.go: the theorem on a Task with one repository.
use tatara_claude_code_wrapp.Common.{◌≡◌, refl, true, [], ◌∷◌, none, some}
use tatara_claude_code_wrapp.Bootstrap.Claim.{
  Params, Codec, Volume, Removal, claim_workspace, write_workspace_identity, workspace_repo_urls,
}
use tatara_claude_code_wrapp.Bootstrap.Claim.Laws.{claim-write}

-- The file of a project with one repository holds the name of the Task.
abbrev codec : Codec
codec = record {
  encode = λ id. id.task_name;
  decode = λ b. some (record {
    contract_version = 1;
    task_name = b;
    project_name = "mtg";
    repo_urls = "https://github.com/org/decks" ∷ [];
  });
}

abbrev params : Params
params = record {
  task_name = "task-7";
  project_name = "mtg";
  repo_url = "";
  repos = record { name = "decks"; url = "https://github.com/org/decks" } ∷ [];
}

-- The same repository, given the other way.
abbrev later : Params
later = record params { repo_url = "https://github.com/org/decks"; repos = [] }

abbrev empty_volume : Volume
empty_volume = record { identity = none; counted = [] }

abbrev no_removal : Removal
no_removal = record { error = none; left = none; mkdir_error = none }

claim-write_example :
    claim_workspace codec true no_removal later
      (write_workspace_identity codec none params empty_volume).0
    ≡ record {
      volume = (write_workspace_identity codec none params empty_volume).0;
      notes = [];
      error = none;
    }
unfolding write_workspace_identity workspace_repo_urls
claim-write_example = claim-write codec true no_removal params later empty_volume refl refl refl
