-- ===== src/Wrapper/Repos/Laws.antt =====
-- cmd/wrapper/app.go: `mergeRepoLists` against the sets that its comment gives.
use tatara_claude_code_wrapp.Common.{
  ◌≡◌, refl, false, not, ◌&&◌, ◌||◌, List, [], ◌∷◌, ◌++◌, String, if◌then◌else◌, contains, str_eq,
  eq_iff, inl, inr, Bool-cases, arith,
}
use tatara_claude_code_wrapp.Wrapper.Repos.{
  add_unseen, union_repos, not_dropped, subtract_repos, RepoLists, merge_repo_lists,
}

contains-append :
    (n : String) (xs ys : List String) → contains n (xs ++ ys) ≡ (contains n xs || contains n ys)
unfolding contains
contains-append n [] ys = refl
contains-append n (x ∷ xs) ys = ground (arith, contains-append n xs ys)

contains-one : (n m : String) → contains n (m ∷ []) ≡ str_eq m n
unfolding contains
contains-one n m = ground arith

contains-step :
    (n m : String) (out : List String)
    → contains n (if contains m out then out else out ++ m ∷ []) ≡ (contains n out || str_eq m n)
contains-step n m out = ground (arith, contains-append n out (m ∷ []), contains-one n m, eq_iff m n)

contains-add_unseen :
    (n : String) (names out : List String)
    → contains n (add_unseen names out) ≡ (contains n out || contains n names)
unfolding contains add_unseen
contains-add_unseen n [] out = ground arith
contains-add_unseen n (m ∷ names) out = ground (
  arith,
  contains-add_unseen n names (if contains m out then out else out ++ m ∷ []),
  contains-step n m out,
)

pub contains-union :
    (n : String) (a b : List String) → contains n (union_repos a b) ≡ (contains n a || contains n b)
unfolding union_repos contains
contains-union n a b =
    ground (arith, contains-add_unseen n b (add_unseen a []), contains-add_unseen n a [])

contains-not_dropped :
    (n : String) (b a : List String)
    → contains n (not_dropped b a) ≡ (contains n a && not (contains n b))
unfolding not_dropped contains
contains-not_dropped n b [] = refl
contains-not_dropped n b (x ∷ xs) = ground (arith, contains-not_dropped n b xs, eq_iff x n)

pub contains-subtract :
    (n : String) (a b : List String)
    → contains n (subtract_repos a b) ≡ (contains n a && not (contains n b))
unfolding subtract_repos contains
contains-subtract n [] b = refl
contains-subtract n (x ∷ xs) [] = ground arith
contains-subtract n (x ∷ xs) (y ∷ ys) = contains-not_dropped n (y ∷ ys) (x ∷ xs)

abbrev pub Distinct : List String → Type 0
Distinct [] = Unit
Distinct (x ∷ xs) = (contains x xs ≡ false) × Distinct xs

Distinct-append :
    (xs : List String) (n : String) → contains n xs ≡ false → Distinct xs → Distinct (xs ++ n ∷ [])
unfolding contains
Distinct-append [] n e d = (refl, tt)
Distinct-append (x ∷ xs) n e d = (
  ground (arith, contains-append x xs (n ∷ []), contains-one x n, eq_iff n x, eq_iff x n),
  Distinct-append xs n (ground arith) d.1,
)

Distinct-add_unseen : (names out : List String) → Distinct out → Distinct (add_unseen names out)
unfolding add_unseen
Distinct-add_unseen [] out d = d
Distinct-add_unseen (m ∷ names) out d = elim (Bool-cases (contains m out)) [
  | inl seen ↦ rw seen (Distinct-add_unseen names out d)
  | inr new ↦ rw new (Distinct-add_unseen names (out ++ m ∷ []) (Distinct-append out m new d))
]

Distinct-not_dropped : (b a : List String) → Distinct a → Distinct (not_dropped b a)
unfolding not_dropped
Distinct-not_dropped b [] d = tt
Distinct-not_dropped b (x ∷ xs) d = elim (Bool-cases (contains x b)) [
  | inl dropped ↦ rw dropped (Distinct-not_dropped b xs d.1)
  | inr kept ↦ rw kept (ground (arith, contains-not_dropped x b xs), Distinct-not_dropped b xs d.1)
]

Distinct-subtract : (a b : List String) → Distinct a → Distinct (subtract_repos a b)
unfolding subtract_repos
Distinct-subtract [] b d = tt
Distinct-subtract (x ∷ xs) [] d = d
Distinct-subtract (x ∷ xs) (y ∷ ys) d = Distinct-not_dropped (y ∷ ys) (x ∷ xs) d

Distinct-union : (a b : List String) → Distinct (union_repos a b)
unfolding union_repos
Distinct-union a b = Distinct-add_unseen b _ (Distinct-add_unseen a [] tt)

-- What the comment of `mergeRepoLists` promises of a name.
pub record Merges (held this merged : RepoLists) (n : String) : Type 0 where
  pub in_pushed :
      contains n merged.pushed
      ≡ ((contains n held.pushed || contains n this.pushed) && not (contains n this.failed))
  pub in_failed : contains n merged.failed ≡ (
      (contains n held.failed && not (contains n held.pushed || contains n this.pushed))
      || contains n this.failed)
  pub in_one : (contains n merged.pushed && contains n merged.failed) ≡ false

-- The merged lists repeat no name, and for every name they are the sets of the source's comment:
-- pushed is what was pushed by then or now and did not fail now; failed is what failed now, and what
-- failed by then and was pushed neither by then nor now. No name is in both.
pub merge_repo_lists_lem :
    (held this : RepoLists)
    → Distinct (merge_repo_lists held this).pushed
      × Distinct (merge_repo_lists held this).failed
      × ((n : String) → Merges held this (merge_repo_lists held this) n)
unfolding merge_repo_lists
merge_repo_lists_lem held this =
    let all_pushed = union_repos held.pushed this.pushed in
    let still = subtract_repos held.failed all_pushed in
    (
      Distinct-subtract all_pushed this.failed (Distinct-union held.pushed this.pushed),
      Distinct-union still this.failed,
      λ n.
          let a = contains-union n held.pushed this.pushed in
          let b = contains-subtract n all_pushed this.failed in
          let c = contains-subtract n held.failed all_pushed in
          let d = contains-union n still this.failed in
          record { in_pushed = ground arith; in_failed = ground arith; in_one = ground arith },
    )
