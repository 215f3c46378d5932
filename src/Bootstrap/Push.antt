-- ===== src/Bootstrap/Push.antt =====
-- internal/bootstrap/repo.go: the commit and the push of each repository at the end of a turn. The
-- package `path/filepath` is a parameter.
pub mod Laws
mod Examples
use text.Mathlib.Text.{find?}
use tatara_claude_code_wrapp.Common.{
  ◌&&◌, ◌||◌, not, ℕ, Bool, true, false, List, [], ◌∷◌, ◌++◌, Option, none, some, String,
  if◌then◌else◌, is_empty, str_eq, ◌+++◌, ltb,
}
use tatara_claude_code_wrapp.Common.Int.{ℤ, pos, negsuc}
use tatara_claude_code_wrapp.Bootstrap.Git.{Git, Trace, command, after, is_nil}
use tatara_claude_code_wrapp.Bootstrap.World.{World, Repair, run, unstage_oversized_blobs}
use tatara_claude_code_wrapp.Bootstrap.Resume.Rescue.{add_all, staged_probe, commit}
use tatara_claude_code_wrapp.Bootstrap.Claim.{RepoSpec}
use tatara_claude_code_wrapp.Bootstrap.Namespace.{namespace_path, has}

-- What a command answers.
abbrev pub answer : World → String → List String → Repair → Option String
answer w dir args s = w.git s.trace (command dir args)

abbrev pub push : String → List String
push branch = "push" ∷ "--no-verify" ∷ "-u" ∷ "origin" ∷ branch ∷ []

pub record Pushed : Type 0 where
  pub state : Repair
  pub pushed : Bool
  pub error : Option String

unfoldable pub commit_staged : World → String → String → String → Repair → Pushed
unfolding run
commit_staged w dir branch message s =
    let s1 = run dir (commit message) s in
    let s2 = run dir (push branch) s1 in
    if is_nil (answer w dir (commit message) s)
    then record {
      state = s2;
      pushed = is_nil (answer w dir (push branch) s1);
      error = answer w dir (push branch) s1;
    }
    else record { state = s1; pushed = false; error = answer w dir (commit message) s }

unfoldable pub push_staged : World → String → String → String → Repair → Pushed
unfolding commit_staged
push_staged w dir branch message s =
    let s1 = run dir staged_probe s in
    if is_nil (answer w dir staged_probe s)
    then record { state = s1; pushed = false; error = none }
    else commit_staged w dir branch message s1

unfoldable pub commit_and_push : World → String → String → String → Repair → Pushed
unfolding push_staged unstage_oversized_blobs
commit_and_push w dir branch message s =
    let s1 = run dir add_all s in
    if is_nil (answer w dir add_all s)
    then push_staged w dir branch message (unstage_oversized_blobs w dir s1)
    else record { state = s1; pushed = false; error = answer w dir add_all s }

abbrev pub benign_push_failures : List String
benign_push_failures =
    "everything up-to-date" ∷ "everything up to date" ∷ "non-fast-forward" ∷ "fetch first" ∷ []

unfoldable pub has_any : List String → String → Bool
has_any [] msg = false
has_any (b ∷ bs) msg = let rest = has_any bs msg in if has msg b then true else rest

abbrev pub unless_benign : (String → String) → Option String → Option String
unless_benign to_lower none = none
unless_benign to_lower (some e) = if has_any benign_push_failures (to_lower e) then none else some e

-- `to_lower` is that of the package `strings`.
unfoldable pub push_only :
    (String → String) → World → String → String → Repair → Repair × Option String
unfolding has_any
push_only to_lower w dir branch s =
    let args = "push" ∷ "--no-verify" ∷ "--quiet" ∷ "origin" ∷ branch ∷ [] in
    (run dir args s, unless_benign to_lower (answer w dir args s))

-- The interval is that of a `time.Duration`.
abbrev pub is_positive : ℤ → Bool
is_positive (pos n) = ltb 0 n
is_positive (negsuc n) = false

unfoldable pub auto_push_enabled : String → ℤ → Bool
auto_push_enabled task_branch interval = not (is_empty task_branch) && is_positive interval

pub record Paths : Type 0 where
  pub join : String → String → String
  pub clean : String → String
  pub base : String → String

abbrev pub is_root : Paths → String → String → Bool
is_root p workspace ns = is_empty ns || str_eq (p.clean (p.join workspace ns)) (p.clean workspace)

unfoldable pub repo_dir : Paths → String → String → String
unfolding namespace_path
repo_dir p workspace url =
    let ns = namespace_path url in if is_root p workspace ns then "" else p.join workspace ns

abbrev pub name_of : Paths → RepoSpec → String
name_of p r = if is_empty r.name then p.base (namespace_path r.url) else r.name

-- `errors` are joined to one error.
pub record Report : Type 0 where
  pub state : Repair
  pub pushed : List String
  pub failed : List String
  pub errors : List String

abbrev pub reported_as : Pushed → String → Report → Option String → Report
reported_as r name rep (some e) = record rep {
  state = r.state;
  failed = rep.failed ++ name ∷ [];
  errors = rep.errors ++ ("commit/push " +++ name +++ ": " +++ e) ∷ [];
}
reported_as r name rep none = record rep {
  state = r.state;
  pushed = if r.pushed then rep.pushed ++ name ∷ [] else rep.pushed;
}

unfoldable pub push_repo : World → Paths → String → String → String → RepoSpec → Report → Report
unfolding commit_and_push
push_repo w p workspace branch message r rep =
    let ns = namespace_path r.url in
    let done = commit_and_push w (p.join workspace ns) branch message rep.state in
    if is_root p workspace ns then rep else reported_as done (name_of p r) rep done.error

unfoldable pub push_repos :
    World → Paths → String → String → String → List RepoSpec → Report → Report
unfolding push_repo
push_repos w p workspace branch message [] rep = rep
push_repos w p workspace branch message (r ∷ rs) rep =
    push_repos w p workspace branch message rs (push_repo w p workspace branch message r rep)

unfoldable pub commit_and_push_all :
    World → Paths → String → List RepoSpec → String → String → Repair → Report
unfolding push_repos
commit_and_push_all w p workspace repos branch message s =
    push_repos w p workspace branch message repos
      (record { state = s; pushed = []; failed = []; errors = [] })
