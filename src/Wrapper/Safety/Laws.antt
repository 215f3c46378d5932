-- ===== src/Wrapper/Safety/Laws.antt =====
-- cmd/wrapper/safetypush.go: PUSH ONLY.
use tatara_claude_code_wrapp.Common.{
  ℕ, zero, suc, ◌+◌, ◌≡◌, refl, false, List, [], ◌∷◌, Option, none, some, String, is_empty, map,
  if_holds, All, length, arith,
}
use tatara_claude_code_wrapp.Bootstrap.Git.{Command, command}
use tatara_claude_code_wrapp.Bootstrap.World.{World, Repair, run}
use tatara_claude_code_wrapp.Bootstrap.Claim.{RepoSpec}
use tatara_claude_code_wrapp.Bootstrap.Namespace.{namespace_path}
use tatara_claude_code_wrapp.Bootstrap.Push.{
  Paths, is_root, repo_dir, push_only, answer, unless_benign,
}
use tatara_claude_code_wrapp.Wrapper.Safety.{
  SafetyPusher, enabled, unless_empty, dirs_of, dirs_or_single, repo_dirs, SafetyPushes, counted,
  push_dirs, push_once, loop, start,
}

-- The addresses of the repositories: the one of the setting is used if no list is given.
abbrev pub addresses : String → List RepoSpec → List String
addresses repo_url [] = repo_url ∷ []
addresses repo_url (r ∷ rs) = map (λ (x : RepoSpec). x.url) (r ∷ rs)

pub data IsOneOf (url : String) : List String → Type 0 where
  first : (urls : List String) → IsOneOf url (url ∷ urls)
  later : (other : String) (urls : List String) → IsOneOf url urls → IsOneOf url (other ∷ urls)

-- The directory of a repository that is configured, which is not the workspace itself.
pub record IsRepoDir (p : Paths) (s : SafetyPusher) (dir : String) : Type 0 where
  pub url : String
  pub listed : IsOneOf url (addresses s.repo_url s.repos)
  pub not_root : is_root p s.workspace (namespace_path url) ≡ false
  pub place : dir ≡ p.join s.workspace (namespace_path url)

-- The one command, in the directory of a repository.
pub record IsPush (p : Paths) (s : SafetyPusher) (c : Command) : Type 0 where
  pub args : c.args ≡ "push" ∷ "--no-verify" ∷ "--quiet" ∷ "origin" ∷ s.task_branch ∷ []
  pub in_repo : IsRepoDir p s c.dir

-- The commands that ran are pushes, and each was counted.
pub record PushesOnly (p : Paths) (s : SafetyPusher) (c : SafetyPushes) : Type 0 where
  pub pushes : All (IsPush p s) c.state.trace
  pub all_counted : c.ok_count + c.fail_count ≡ length c.state.trace

module _ (to_lower : String → String) (w : World) (p : Paths) (s : SafetyPusher) where
  repo_dir-IsRepoDir :
      (url : String) (dirs : List String)
      → IsOneOf url (addresses s.repo_url s.repos)
      → All (IsRepoDir p s) dirs
      → All (IsRepoDir p s) (unless_empty (repo_dir p s.workspace url) dirs)
  unfolding repo_dir
  repo_dir-IsRepoDir url dirs listed h =
      if_holds (All (IsRepoDir p s)) (is_empty (repo_dir p s.workspace url)) _ _ (λ _. h)
        (λ e. (named e, h))
    where
      named :
          is_empty (repo_dir p s.workspace url) ≡ false → IsRepoDir p s (repo_dir p s.workspace url)
      named =
          if_holds (λ (d : String). is_empty d ≡ false → IsRepoDir p s d)
            (is_root p s.workspace (namespace_path url)) _ _ (λ r e. cc)
            (λ r e. record { url = url; listed = listed; not_root = r; place = refl })

  dirs_of-IsRepoDir :
      (rs : List RepoSpec)
      → ((url : String)
          → IsOneOf url (map (λ (x : RepoSpec). x.url) rs)
          → IsOneOf url (addresses s.repo_url s.repos))
      → All (IsRepoDir p s) (dirs_of p s.workspace rs)
  unfolding dirs_of
  dirs_of-IsRepoDir [] among = tt
  dirs_of-IsRepoDir (r ∷ rs) among =
      repo_dir-IsRepoDir r.url (dirs_of p s.workspace rs) (among r.url (first _))
        (dirs_of-IsRepoDir rs (λ url i. among url (later r.url _ i)))

  of_repos :
      (rs : List RepoSpec)
      → ((url : String)
          → IsOneOf url (addresses s.repo_url rs)
          → IsOneOf url (addresses s.repo_url s.repos))
      → All (IsRepoDir p s) (dirs_or_single p s rs)
  of_repos [] among = repo_dir-IsRepoDir s.repo_url [] (among s.repo_url (first _)) tt
  of_repos (r ∷ rs) among = dirs_of-IsRepoDir (r ∷ rs) among

  repo_dirs-IsRepoDir : All (IsRepoDir p s) (repo_dirs p s)
  unfolding repo_dirs
  repo_dirs-IsRepoDir = of_repos s.repos (λ url i. i)

  counted-PushesOnly :
      (t : Repair) (o : Option String) (c : SafetyPushes)
      → All (IsPush p s) t.trace
      → length t.trace ≡ suc (c.ok_count + c.fail_count)
      → PushesOnly p s (counted (t, o) c)
  counted-PushesOnly t none c h e = record { pushes = h; all_counted = omega arith }
  counted-PushesOnly t (some m) c h e = record { pushes = h; all_counted = omega arith }

  push_dirs-PushesOnly :
      (dirs : List String) (c : SafetyPushes)
      → All (IsRepoDir p s) dirs
      → PushesOnly p s c
      → PushesOnly p s (push_dirs to_lower w s.task_branch dirs c)
  unfolding push_dirs push_only run
  push_dirs-PushesOnly [] c h k = k
  push_dirs-PushesOnly (dir ∷ dirs) c h k =
      let args = "push" ∷ "--no-verify" ∷ "--quiet" ∷ "origin" ∷ s.task_branch ∷ [] in
      let new : IsPush p s (command dir args) = record { args = refl; in_repo = h.0 } in
      push_dirs-PushesOnly dirs _ h.1 (
        counted-PushesOnly (run dir args c.state)
          (unless_benign to_lower (answer w dir args c.state)) c (new, k.pushes)
          (omega (arith, k.all_counted)))

  push_once-PushesOnly :
      (c : SafetyPushes) → PushesOnly p s c → PushesOnly p s (push_once to_lower w p s c)
  unfolding push_once
  push_once-PushesOnly c k =
      if_holds (PushesOnly p s) (is_empty s.task_branch) _ _ (λ _. k)
        (λ _. push_dirs-PushesOnly (repo_dirs p s) c repo_dirs-IsRepoDir k)

  loop-PushesOnly :
      (ticks : ℕ) (c : SafetyPushes)
      → PushesOnly p s c
      → PushesOnly p s (loop to_lower w p s ticks c)
  unfolding loop
  loop-PushesOnly zero c k = k
  loop-PushesOnly (suc ticks) c k =
      loop-PushesOnly ticks (push_once to_lower w p s c) (push_once-PushesOnly c k)

abbrev pub no_pushes : SafetyPushes
no_pushes = record {
  state = record { trace = []; recoveries = []; locks = []; oversized = 0; removals = [] };
  ok_count = 0;
  fail_count = 0;
}

-- However long it runs and whatever git answers, the safety net runs no command but a push of the task
-- branch, with no flag that forces it, in the directory that the address of a configured repository
-- gives, which is never the workspace itself. It counts each push once.
pub start-PushesOnly :
    (to_lower : String → String) (w : World) (p : Paths) (s : SafetyPusher) (ticks : ℕ)
    → PushesOnly p s (start to_lower w p s ticks no_pushes)
unfolding start
start-PushesOnly to_lower w p s ticks =
    let fresh : PushesOnly p s no_pushes = record { pushes = tt; all_counted = refl } in
    if_holds (PushesOnly p s) (enabled s) _ _
      (λ _. loop-PushesOnly to_lower w p s ticks no_pushes fresh) (λ _. fresh)
