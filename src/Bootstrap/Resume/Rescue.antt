-- ===== src/Bootstrap/Resume/Rescue.antt =====
-- internal/bootstrap/resume.go: the rescue of a working tree, and the phases of `PrepareWorkspace`.
use tatara_claude_code_wrapp.Common.{
  Bool, true, false, List, [], ◌∷◌, map, Option, none, some, String, if◌then◌else◌, is_empty, ◌+++◌,
}
use tatara_claude_code_wrapp.Bootstrap.World.{
  World, Repair, run, works, record_recovery, unstage_oversized_blobs, head_sha, short_sha,
}

abbrev pub rescue_commit_message : String
rescue_commit_message = "tatara bootstrap: rescue uncommitted work from an interrupted session"

abbrev pub rescue_branch : String
rescue_branch = "tatara-bootstrap-rescue"

abbrev pub abort_rescue_branch : String
abort_rescue_branch = "tatara-bootstrap-rescue-aborted"

abbrev pub abort_rescue_message : String
abort_rescue_message = "tatara bootstrap: preserve a session that could not be cleanly aborted"

-- The loop from 2 to `maxRescueBranchAttempts`, written out.
abbrev pub numbered_names : String → List String
numbered_names base =
    map (λ n. base +++ "-" +++ n) ("2" ∷ "3" ∷ "4" ∷ "5" ∷ "6" ∷ "7" ∷ "8" ∷ "9" ∷ [])

abbrev pub rescue_branch_names : String → List String
rescue_branch_names base = base ∷ numbered_names base

-- The first of the names with which the command succeeds, "" if there is none.
unfoldable pub first_accepted :
    World → String → (String → List String) → List String → Repair → Repair × String
unfolding run
first_accepted w dest args [] s = (s, "")
first_accepted w dest args (name ∷ names) s =
    let s1 = run dest (args name) s in
    let rest = first_accepted w dest args names s1 in
    if works w dest (args name) s then (s1, name) else rest

abbrev pub new_branch : String → List String
new_branch name = "checkout" ∷ "-b" ∷ name ∷ []

abbrev pub name_branch : String → List String
name_branch name = "branch" ∷ name ∷ []

abbrev pub claim_rescue_branch : World → String → String → Repair → Repair × String
claim_rescue_branch w dest base s = first_accepted w dest new_branch (rescue_branch_names base) s

abbrev pub name_rescue_branch : World → String → String → Repair → Repair × String
name_rescue_branch w dest base s = first_accepted w dest name_branch (rescue_branch_names base) s

pub record Rescue : Type 0 where
  pub state : Repair
  pub notes : List String
  pub required : List String
  pub wiped : Bool
  pub error : Option String

abbrev pub nothing : Repair → Rescue
nothing s = record { state = s; notes = []; required = []; wiped = false; error = none }

abbrev pub removed : String → Repair → Repair
removed dest s = record s { removals = dest ∷ s.removals }

abbrev pub removal_outcome :
    World → String → String → String → Repair → Option String → Repair × Option String
removal_outcome w dest what kind s none = (record_recovery w kind (removed dest s), none)
removal_outcome w dest what kind s (some e) = (removed dest s, some (what +++ dest +++ ": " +++ e))

-- `os.RemoveAll`, which may fail, and what is counted if it does not.
unfoldable pub wipe : World → String → String → String → Repair → Repair × Option String
unfolding record_recovery
wipe w dest what kind s = removal_outcome w dest what kind s (w.remove_all s.trace dest)

unfoldable pub wipe_unrecoverable : World → String → Repair → Rescue
unfolding wipe
wipe_unrecoverable w dest s =
    let r = wipe w dest "remove unrecoverable checkout " "unrecoverable" s in
    record { state = r.0; notes = []; required = []; wiped = true; error = r.1 }

abbrev pub add_all : List String
add_all = "add" ∷ "-A" ∷ []

abbrev pub staged_probe : List String
staged_probe = "diff" ∷ "--cached" ∷ "--quiet" ∷ []

abbrev pub tree_probe : List String
tree_probe = "diff" ∷ "--quiet" ∷ []

abbrev pub commit : String → List String
commit message = "commit" ∷ "--no-verify" ∷ "-m" ∷ message ∷ []

abbrev pub go_back : List String
go_back = "checkout" ∷ "-" ∷ []

abbrev pub preserved_note : String → String → String
preserved_note branch sha =
    "the previous session was interrupted inside a git operation that could NOT be cleanly aborted, so bootstrap could not tell what state it was in. "
    +++ "The working tree exactly as it stood has been preserved on branch `"
    +++ branch
    +++ "` at `"
    +++ short_sha sha
    +++ "`, which exists only in this workspace - nothing pushes it for you. "
    +++ "That commit may contain conflict markers or a half-applied change; it was kept off your task branch for exactly that reason. "
    +++ "Inspect it (`git show "
    +++ short_sha sha
    +++ "`, `git diff "
    +++ branch
    +++ "`), salvage anything real onto your task branch, and only then continue"

abbrev pub preserved : World → String → String → Repair → Rescue
preserved w dest branch s = record {
  state = record_recovery w "abort rescue" (run dest go_back s);
  notes = [];
  required = preserved_note branch (head_sha w dest s) ∷ [];
  wiped = false;
  error = none;
}

-- On the rescue branch, with everything staged that may be.
unfoldable pub commit_rescue : World → String → String → Repair → Rescue
unfolding wipe_unrecoverable record_recovery run
commit_rescue w dest branch s =
    let s1 = run dest staged_probe s in
    let s2 = run dest (commit abort_rescue_message) s1 in
    if works w dest staged_probe s
    then nothing (run dest go_back s1)
    else if works w dest (commit abort_rescue_message) s1
    then preserved w dest branch s2
    else wipe_unrecoverable w dest s2

unfoldable pub rescue_unabortable : World → String → Repair → Rescue
unfolding commit_rescue first_accepted unstage_oversized_blobs
rescue_unabortable w dest s =
    let claimed = claim_rescue_branch w dest abort_rescue_branch s in
    let s1 = run dest add_all claimed.0 in
    if is_empty claimed.1
    then wipe_unrecoverable w dest claimed.0
    else if works w dest add_all claimed.0
    then commit_rescue w dest claimed.1 (unstage_oversized_blobs w dest s1)
    else wipe_unrecoverable w dest s1

abbrev pub rescued_note : String → String
rescued_note sha =
    "uncommitted work from the previous session was committed for you as `"
    +++ short_sha sha
    +++ "` ("
    +++ rescue_commit_message
    +++ "); review it and fold it into your own commits rather than assuming it is finished"

abbrev pub detached_note : String → String
detached_note name =
    if is_empty name
    then ""
    else ". HEAD was detached at the time, so that commit is also kept on branch `" +++ name
      +++ "`, which exists only in this workspace - nothing pushes it for you"

unfoldable pub rescued : World → String → Bool → Repair → Rescue
unfolding first_accepted record_recovery head_sha short_sha
rescued w dest detached s =
    let sha = head_sha w dest s in
    let named = if detached then name_rescue_branch w dest rescue_branch s else (s, "") in
    record {
      state = record_recovery w "rescue commit" named.0;
      notes = (rescued_note sha +++ detached_note named.1) ∷ [];
      required = [];
      wiped = false;
      error = none;
    }

-- With everything staged that may be.
unfoldable pub commit_work : World → String → Bool → Repair → Rescue
unfolding rescued run
commit_work w dest detached s =
    let s1 = run dest staged_probe s in
    let s2 = run dest (commit rescue_commit_message) s1 in
    if works w dest staged_probe s
    then nothing s1
    else if works w dest (commit rescue_commit_message) s1
    then rescued w dest detached s2
    else nothing s2

unfoldable pub rescue_dirty : World → String → Bool → Repair → Rescue
unfolding commit_work unstage_oversized_blobs
rescue_dirty w dest detached s =
    let s1 = run dest add_all s in
    if works w dest add_all s
    then commit_work w dest detached (unstage_oversized_blobs w dest s1)
    else nothing s1
