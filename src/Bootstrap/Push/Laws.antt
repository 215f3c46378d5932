-- ===== src/Bootstrap/Push/Laws.antt =====
-- internal/bootstrap/repo.go: one repository's failure does not keep another from its commit.
use tatara_claude_code_wrapp.Common.{
  ◌≡◌, Bool, true, false, List, [], ◌∷◌, ◌++◌, Option, none, some, String, if_holds,
}
use tatara_claude_code_wrapp.Bootstrap.Git.{Command, Trace, command, is_nil}
use tatara_claude_code_wrapp.Bootstrap.World.{
  World, Repair, run, record_recovery, record_lock_cleared,
}
use tatara_claude_code_wrapp.Bootstrap.Resume.Rescue.{add_all, staged_probe, commit}
use tatara_claude_code_wrapp.Bootstrap.Resume.Steps.{IsHeld, unstage_held}
use tatara_claude_code_wrapp.Bootstrap.Claim.{RepoSpec}
use tatara_claude_code_wrapp.Bootstrap.Namespace.{namespace_path}
use tatara_claude_code_wrapp.Bootstrap.Push.{
  answer, Pushed, commit_staged, push_staged, commit_and_push, Paths, is_root, name_of, Report,
  reported_as, push_repo, push_repos, commit_and_push_all,
}

-- The command is among those that were run.
pub data Ran (c : Command) : Trace → Type 0 where
  last : {t : Trace} → Ran c (c ∷ t)
  earlier : {t : Trace} {d : Command} → Ran c t → Ran c (d ∷ t)

both : (b : Bool) → b ≡ true → b ≡ false → ⊥
both true e f = cc
both false e f = cc

abbrev Has : Command → Repair → Type 0
Has c s = Ran c s.trace

Has-IsHeld : (c : Command) (w : World) (dest : String) → IsHeld w dest (Has c)
unfolding run record_recovery record_lock_cleared
Has-IsHeld c w dest = record {
  runs = λ dir args s l h. earlier h;
  aborts = λ marker args s l e h. earlier h;
  falls_back = λ marker args next s l e f h. earlier (earlier h);
  recovers = λ v kind s h. if_holds (Has c) v.metrics _ s (λ e. h) (λ e. h);
  clears = λ v label s h. if_holds (Has c) v.metrics _ s (λ e. h) (λ e. h);
  skips = λ v s h. if_holds (Has c) v.metrics _ s (λ e. h) (λ e. h);
}

module _ (c : Command) (w : World) (dir branch message : String) where
  staged_held : (s : Repair) → Has c s → Has c (push_staged w dir branch message s).state
  unfolding push_staged commit_staged run
  staged_held s h =
      let s1 = run dir staged_probe s in
      if_holds (λ (p : Pushed). Has c p.state) (is_nil (answer w dir staged_probe s)) _ _
        (λ e. earlier h)
        (λ e.
          if_holds (λ (p : Pushed). Has c p.state) (is_nil (answer w dir (commit message) s1)) _ _
            (λ f. earlier (earlier (earlier h))) (λ f. earlier (earlier h)))

  added_held :
      (s : Repair)
      → Has c (run dir add_all s)
      → Has c (commit_and_push w dir branch message s).state
  unfolding commit_and_push
  added_held s h =
      let s1 = run dir add_all s in
      if_holds (λ (p : Pushed). Has c p.state) (is_nil (answer w dir add_all s)) _ _
        (λ e. staged_held _ (unstage_held (Has c) w dir (Has-IsHeld c w dir) s1 h)) (λ e. h)

reported_held :
    (c : Command) (r : Pushed) (name : String) (rep : Report) (o : Option String)
    → Has c r.state
    → Has c (reported_as r name rep o).state
reported_held c r name rep none h = h
reported_held c r name rep (some e) h = h

module _ (w : World) (p : Paths) (workspace branch message : String) where
  abbrev dir_of : RepoSpec → String
  dir_of r = p.join workspace (namespace_path r.url)

  abbrev add_in : RepoSpec → Command
  add_in r = command (dir_of r) add_all

  repo_held :
      (c : Command) (r : RepoSpec) (rep : Report)
      → Has c rep.state
      → Has c (push_repo w p workspace branch message r rep).state
  unfolding push_repo run
  repo_held c r rep h =
      let done = commit_and_push w (dir_of r) branch message rep.state in
      if_holds (λ (x : Report). Has c x.state) (is_root p workspace (namespace_path r.url)) rep _
        (λ e. h)
        (λ e.
          reported_held c done (name_of p r) rep done.error
            (added_held c w (dir_of r) branch message rep.state (earlier h)))

  repos_held :
      (c : Command) (rs : List RepoSpec) (rep : Report)
      → Has c rep.state
      → Has c (push_repos w p workspace branch message rs rep).state
  unfolding push_repos
  repos_held c [] rep h = h
  repos_held c (r ∷ rs) rep h = repos_held c rs _ (repo_held c r rep h)

  repo_attempted :
      (r : RepoSpec) (rep : Report)
      → is_root p workspace (namespace_path r.url) ≡ false
      → Has (add_in r) (push_repo w p workspace branch message r rep).state
  unfolding push_repo run
  repo_attempted r rep f =
      let done = commit_and_push w (dir_of r) branch message rep.state in
      if_holds (λ (x : Report). Has (add_in r) x.state) (is_root p workspace (namespace_path r.url))
        rep _ (λ e. absurd (both (is_root p workspace (namespace_path r.url)) e f))
        (λ e.
          reported_held (add_in r) done (name_of p r) rep done.error
            (added_held (add_in r) w (dir_of r) branch message rep.state last))

  repos_attempted :
      (before after : List RepoSpec) (r : RepoSpec) (rep : Report)
      → is_root p workspace (namespace_path r.url) ≡ false
      → Has (add_in r) (push_repos w p workspace branch message (before ++ r ∷ after) rep).state
  unfolding push_repos
  repos_attempted [] after r rep f = repos_held (add_in r) after _ (repo_attempted r rep f)
  repos_attempted (x ∷ before) after r rep f = repos_attempted before after r _ f

-- A repository whose address has a place below the workspace has its changes staged, whatever stands
-- before it in the list and whatever became of that.
pub every_repo_attempted :
    (w : World) (p : Paths) (workspace : String) (before after : List RepoSpec) (r : RepoSpec)
    (branch message : String) (s : Repair)
    → is_root p workspace (namespace_path r.url) ≡ false
    → Ran
        (command (p.join workspace (namespace_path r.url)) add_all)
        (commit_and_push_all w p workspace (before ++ r ∷ after) branch message s).state.trace
unfolding commit_and_push_all
every_repo_attempted w p workspace before after r branch message s f =
    repos_attempted w p workspace branch message before after r
      (record { state = s; pushed = []; failed = []; errors = [] }) f
