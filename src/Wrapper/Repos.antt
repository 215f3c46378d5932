-- ===== src/Wrapper/Repos.antt =====
-- cmd/wrapper/app.go: the lists of repositories that a turn reports. The nil slice is the empty list.
pub mod Laws
use tatara_claude_code_wrapp.Common.{
  Bool, true, false, List, [], ◌∷◌, ◌++◌, String, if◌then◌else◌, contains,
}

-- The names that `seen` holds are those of `out`.
unfoldable pub add_unseen : List String → List String → List String
add_unseen [] out = out
add_unseen (name ∷ names) out =
    add_unseen names (if contains name out then out else out ++ name ∷ [])

unfoldable pub union_repos : List String → List String → List String
unfolding add_unseen contains
union_repos a b = add_unseen b (add_unseen a [])

unfoldable pub not_dropped : List String → List String → List String
not_dropped b [] = []
not_dropped b (name ∷ names) =
    let rest = not_dropped b names in if contains name b then rest else name ∷ rest

unfoldable pub subtract_repos : List String → List String → List String
unfolding not_dropped contains
subtract_repos [] b = []
subtract_repos (x ∷ xs) [] = x ∷ xs
subtract_repos (x ∷ xs) (y ∷ ys) = not_dropped (y ∷ ys) (x ∷ xs)

pub record RepoLists : Type 0 where
  pub pushed : List String
  pub failed : List String

-- What is held, and then what this turn reports.
unfoldable pub merge_repo_lists : RepoLists → RepoLists → RepoLists
unfolding union_repos subtract_repos
merge_repo_lists held this =
    let all_pushed = union_repos held.pushed this.pushed in
    record {
      pushed = subtract_repos all_pushed this.failed;
      failed = union_repos (subtract_repos held.failed all_pushed) this.failed;
    }
