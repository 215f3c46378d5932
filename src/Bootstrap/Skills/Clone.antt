-- ===== src/Bootstrap/Skills/Clone.antt =====
-- internal/bootstrap/skills.go: the clone of the skills repository. Git and the file system are
-- parameters, each answer a function of the commands that git has run by then; the logs are left out.
pub mod Laws
pub mod Whole
mod Examples
use tatara_claude_code_wrapp.Common.{
  ℕ, zero, suc, ◌+◌, ◌&&◌, ◌||◌, not, Bool, true, false, List, [], ◌∷◌, ◌++◌, Option, none, some,
  String, if◌then◌else◌, is_empty, str_eq, trim_space,
}
use tatara_claude_code_wrapp.Bootstrap.Git.{Git, Trace, after, succeeds}

-- What of the parameters is read here; `staging` is the sibling of the clone's directory, and
-- `has_token` whether there is a token.
pub record CloneParams : Type 0 where
  pub skills_repo : String
  pub skills_ref : String
  pub skills_clone_dir : String
  pub staging : String
  pub has_token : Bool
  pub metrics : Bool

-- A directory: whether it has a `.git`, its sentinel, and what else is in it.
pub record CloneDir : Type 0 where
  pub has_git : Bool
  pub sentinel : Option String
  pub content : String

-- `fetched` is what stands in the staging directory. A removal that fails leaves something, or nothing.
pub record Remote : Type 0 where
  pub git : Git
  pub fetched : Trace → CloneDir
  pub writes_sentinel : Trace → Bool
  pub stat_fails : Trace → Bool
  pub removal : Trace → CloneDir → Option (Option CloneDir)
  pub renames : Trace → Bool

-- `waits` are the attempts after which it was waited.
pub record Site : Type 0 where
  pub trace : Trace
  pub dst : Option CloneDir
  pub waits : List ℕ
  pub clone_failures : ℕ

abbrev pub git_run : String → List String → Site → Site
git_run dir args s = record s { trace = after dir args s.trace }

abbrev pub has_sentinel : CloneDir → Bool
has_sentinel d = elim d.sentinel [ none ↦ false | some ref ↦ true ]

-- The clone of skills that a directory is taken for.
abbrev pub is_skills_clone : CloneDir → Bool
is_skills_clone d = d.has_git || has_sentinel d

-- A new site, and whether there was no error.
abbrev pub Step : Type 0
Step = Site × Bool

abbrev pub rename : Remote → CloneDir → Site → Step
rename r staged s = if r.renames s.trace then (record s { dst = some staged }, true) else (s, false)

abbrev pub behind_removal : Remote → CloneDir → Option (Option CloneDir) → Site → Step
behind_removal r staged none s = rename r staged (record s { dst = none })
behind_removal r staged (some left) s = (record s { dst = left }, false)

abbrev pub replace : Remote → CloneDir → Option CloneDir → Site → Step
replace r staged none s = rename r staged s
replace r staged (some d) s =
    if is_skills_clone d then behind_removal r staged (r.removal s.trace d) s else (s, false)

unfoldable pub promote_skills_clone : Remote → CloneDir → Site → Step
promote_skills_clone r staged s =
    if r.stat_fails s.trace then (s, false) else replace r staged s.dst s

-- The steps of an attempt, up to the first that fails.
abbrev pub and_then : Bool → Site → Step → Step
and_then ok s next = if ok then next else (s, false)

abbrev pub init_args : String → List String
init_args staging = "init" ∷ "-q" ∷ staging ∷ []

abbrev pub remote_args : String → List String
remote_args url = "remote" ∷ "add" ∷ "origin" ∷ url ∷ []

abbrev pub fetch_args : String → List String
fetch_args ref = "fetch" ∷ "--depth" ∷ "1" ∷ "origin" ∷ ref ∷ []

abbrev pub checkout_args : List String
checkout_args = "checkout" ∷ "-q" ∷ "--detach" ∷ "FETCH_HEAD" ∷ []

unfoldable pub stamp_and_promote : Remote → String → Site → Step
unfolding promote_skills_clone
stamp_and_promote r ref s =
    and_then (r.writes_sentinel s.trace) s
      (promote_skills_clone r (record (r.fetched s.trace) { sentinel = some ref }) s)

unfoldable pub attempt : Remote → CloneParams → String → Site → Step
unfolding stamp_and_promote
attempt r p ref s =
    let s1 = git_run "" (init_args p.staging) s in
    let s2 = git_run p.staging (remote_args p.skills_repo) s1 in
    let s3 = git_run p.staging (fetch_args ref) s2 in
    let s4 = git_run p.staging checkout_args s3 in
    and_then (succeeds r.git "" (init_args p.staging) s.trace) s1 (
      and_then (succeeds r.git p.staging (remote_args p.skills_repo) s1.trace) s2 (
        and_then (succeeds r.git p.staging (fetch_args ref) s2.trace) s3 (
          and_then (succeeds r.git p.staging checkout_args s3.trace) s4
            (stamp_and_promote r ref s4))))

abbrev pub failed_clone : CloneParams → Site → Site
failed_clone p s = if p.metrics then record s { clone_failures = s.clone_failures + 1 } else s

abbrev pub wait_after : ℕ → Site → Site
wait_after n s = record s { waits = s.waits ++ n ∷ [] }

-- The attempt of a number, with so many left behind it.
unfoldable pub attempts : Remote → CloneParams → String → ℕ → ℕ → Site → Site
unfolding attempt
attempts r p ref zero n s =
    let done = attempt r p ref s in if done.1 then done.0 else failed_clone p done.0
attempts r p ref (suc left) n s =
    let done = attempt r p ref s in
    let rest = attempts r p ref left (n + 1) (wait_after n done.0) in
    if done.1 then done.0 else rest

abbrev pub ref_of : CloneParams → String
ref_of p = if is_empty p.skills_ref then "main" else p.skills_ref

abbrev pub credential_args : List String
credential_args =
    "config" ∷ "--global" ∷ "credential.helper"
    ∷ "!f() { echo username=x-access-token; echo \"password=$GIT_TOKEN\"; }; f" ∷ []

abbrev pub with_credentials : CloneParams → Site → Site
with_credentials p s = if p.has_token then git_run "" credential_args s else s

abbrev pub is_stamped : String → Option String → Bool
is_stamped ref none = false
is_stamped ref (some written) = str_eq (trim_space written) ref

-- The directory holds a complete checkout of the ref.
abbrev pub is_complete : String → Option CloneDir → Bool
is_complete ref none = false
is_complete ref (some d) = is_stamped ref d.sentinel

unfoldable pub clone_skills_repo : Remote → CloneParams → Site → Site
unfolding attempts trim_space
clone_skills_repo r p s =
    let s1 = with_credentials p s in
    if is_empty p.skills_repo || is_empty p.skills_clone_dir
    then s
    else if is_complete (ref_of p) s1.dst
    then s1
    else attempts r p (ref_of p) 2 1 s1
