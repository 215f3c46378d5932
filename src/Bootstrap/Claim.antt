-- ===== src/Bootstrap/Claim.antt =====
-- internal/bootstrap/resume.go: to which Task a workspace belongs. The encoding of the identity file
-- is a parameter.
pub mod Laws
mod Examples
use tatara_claude_code_wrapp.Common.{
  ◌&&◌, not, ℕ, Bool, true, false, List, [], ◌∷◌, ◌++◌, map, Option, none, some, String,
  if◌then◌else◌, is_empty, str_eq, ◌+++◌, contains,
}

pub record Identity : Type 0 where
  pub contract_version : ℕ
  pub task_name : String
  pub project_name : String
  pub repo_urls : List String

pub record RepoSpec : Type 0 where
  pub name : String
  pub url : String

-- What of the parameters is read here.
pub record Params : Type 0 where
  pub task_name : String
  pub project_name : String
  pub repo_url : String
  pub repos : List RepoSpec

pub record Codec : Type 0 where
  pub encode : Identity → String
  pub decode : String → Option Identity

abbrev pub workspace_contract_version : ℕ
workspace_contract_version = 1

unfoldable pub workspace_repo_urls : Params → List String
workspace_repo_urls p = elim p.repos [
  | [] ↦ if is_empty p.repo_url then [] else p.repo_url ∷ []
  | r ∷ rs ↦ map (λ (x : RepoSpec). x.url) (r ∷ rs)
]

-- What is in the second list and not in the first.
unfoldable pub missing_from : List String → List String → List String
missing_from have [] = []
missing_from have (u ∷ us) =
    let rest = missing_from have us in if contains u have then rest else u ∷ rest

-- What was added, and what was removed.
unfoldable pub diff_strings : List String → List String → List String × List String
unfolding missing_from
diff_strings have want = (missing_from have want, missing_from want have)

-- `identity` is the text of the identity file, if it is there; `counted` lists the recoveries.
pub record Volume : Type 0 where
  pub identity : Option String
  pub counted : List String

-- How the removal of the workspace goes, the text that is left where it fails, and how making the
-- directory again goes.
pub record Removal : Type 0 where
  pub error : Option String
  pub left : Option String
  pub mkdir_error : Option String

pub record Claimed : Type 0 where
  pub volume : Volume
  pub notes : List String
  pub error : Option String

abbrev pub read_from : Codec → Option String → Option Identity
read_from c none = none
read_from c (some b) = c.decode b

unfoldable pub read_workspace_identity : Codec → Volume → Option Identity
read_workspace_identity c v = read_from c v.identity

abbrev pub recovered : Bool → String → Volume → Volume
recovered metrics kind v = if metrics then record v { counted = v.counted ++ kind ∷ [] } else v

abbrev pub made_again : Bool → Option String → Volume → Claimed
made_again metrics none v = record {
  volume = recovered metrics "wrong task" v;
  notes = [];
  error = none;
}
made_again metrics (some e) v = record {
  volume = v;
  notes = [];
  error = some ("recreate wiped workspace: " +++ e);
}

unfoldable pub wipe_workspace : Bool → Removal → Option String → Volume → Claimed
wipe_workspace metrics x none v = made_again metrics x.mkdir_error (record v { identity = none })
wipe_workspace metrics x (some e) v = record {
  volume = record v { identity = x.left };
  notes = [];
  error = some ("wipe workspace claimed by another task: " +++ e);
}

abbrev pub added_note : String → String
added_note u =
    "`" +++ u
    +++ "` was added to this project since the last session and has been cloned in for the first time"

abbrev pub removed_note : String → String
removed_note u =
    "`" +++ u
    +++ "` is no longer part of this project. Its checkout has been LEFT on disk in case it holds uncommitted work; bootstrap will not update it again, so do not treat it as current"

abbrev pub is_nil : List String → Bool
is_nil [] = true
is_nil (x ∷ xs) = false

unfoldable pub note_changes : Bool → List String × List String → Volume → Claimed
note_changes metrics (added, gone) v =
    if is_nil added && is_nil gone
    then record { volume = v; notes = []; error = none }
    else record {
      volume = recovered metrics "repo set changed" v;
      notes = map added_note added ++ map removed_note gone;
      error = none;
    }

abbrev pub is_foreign : Identity → Params → Bool
is_foreign prev p =
    not (is_empty prev.task_name)
    && not (is_empty p.task_name)
    && not (str_eq prev.task_name p.task_name)

unfoldable pub claim_for : Bool → Removal → Params → Volume → Option Identity → Claimed
unfolding wipe_workspace note_changes diff_strings workspace_repo_urls
claim_for metrics x p v none = record { volume = v; notes = []; error = none }
claim_for metrics x p v (some prev) =
    if is_foreign prev p
    then wipe_workspace metrics x x.error v
    else note_changes metrics (diff_strings prev.repo_urls (workspace_repo_urls p)) v

unfoldable pub claim_workspace : Codec → Bool → Removal → Params → Volume → Claimed
unfolding claim_for read_workspace_identity
claim_workspace c metrics x p v = claim_for metrics x p v (read_workspace_identity c v)

unfoldable pub identity_of : Params → Identity
unfolding workspace_repo_urls
identity_of p = record {
  contract_version = workspace_contract_version;
  task_name = p.task_name;
  project_name = p.project_name;
  repo_urls = workspace_repo_urls p;
}

-- The write leaves the whole text, or fails with an error and leaves what it leaves.
unfoldable pub write_workspace_identity :
    Codec → Option (String × Option String) → Params → Volume → Volume × Option String
unfolding identity_of
write_workspace_identity c none p v =
    (record v { identity = some (c.encode (identity_of p)) }, none)
write_workspace_identity c (some (e, left)) p v =
    (record v { identity = left }, some ("write workspace identity: " +++ e))
