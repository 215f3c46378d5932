-- ===== src/Bootstrap/Claim/Laws.antt =====
-- internal/bootstrap/resume.go: a workspace is found again by the Task that left it.
use tatara_claude_code_wrapp.Common.{
  ◌≡◌, ◌∙◌, ap, refl, arith, ◌&&◌, not, Bool, true, List, [], ◌∷◌, none, some, String, str_eq,
  eq_iff, eq_refl, contains, if_holds,
}
use tatara_claude_code_wrapp.Bootstrap.Claim.{
  Params, Codec, Volume, Removal, workspace_repo_urls, missing_from, diff_strings, claim_workspace,
  is_foreign, claim_for, note_changes, identity_of, read_workspace_identity,
  write_workspace_identity,
}

contains-missing_from :
    (u : String) (have want : List String)
    → contains u (missing_from have want) ≡ (contains u want && not (contains u have))
unfolding contains missing_from
contains-missing_from u have [] = refl
contains-missing_from u have (x ∷ want) =
    ground (arith, contains-missing_from u have want, eq_iff x u)

-- A text counts as added exactly if it is only in the new list, and as removed exactly if it is only
-- in the old one.
pub contains-diff_strings :
    (u : String) (have want : List String)
    → (contains u (diff_strings have want).0 ≡ (contains u want && not (contains u have)))
      × (contains u (diff_strings have want).1 ≡ (contains u have && not (contains u want)))
unfolding diff_strings
contains-diff_strings u have want =
    (contains-missing_from u have want, contains-missing_from u want have)

abbrev AreIn : List String → List String → Type 0
AreIn have [] = Unit
AreIn have (u ∷ us) = (contains u have ≡ true) × AreIn have us

AreIn-cons : (x : String) (have us : List String) → AreIn have us → AreIn (x ∷ have) us
unfolding contains
AreIn-cons x have [] h = tt
AreIn-cons x have (u ∷ us) (h, hs) = (ground (arith, h), AreIn-cons x have us hs)

AreIn-self : (us : List String) → AreIn us us
unfolding contains
AreIn-self [] = tt
AreIn-self (u ∷ us) = (ground (arith, eq_refl u), AreIn-cons u us us (AreIn-self us))

nothing_missing : (have want : List String) → AreIn have want → missing_from have want ≡ []
unfolding missing_from
nothing_missing have [] h = refl
nothing_missing have (u ∷ us) (h, hs) = ground (arith, h, nothing_missing have us hs)

diff_self : (us : List String) → diff_strings us us ≡ ([], [])
unfolding diff_strings
diff_self us = rw (nothing_missing us us (AreIn-self us)) refl

own :
    (p q : Params) → str_eq p.task_name q.task_name ≡ true → is_foreign (identity_of p) q ≡ true → ⊥
unfolding identity_of
own p q same foreign = ground (arith, same, foreign)

-- The identity that was written is of the same Task and of the same repositories.
claim-identity_of :
    (metrics : Bool) (x : Removal) (p q : Params) (v : Volume)
    → str_eq p.task_name q.task_name ≡ true
    → workspace_repo_urls q ≡ workspace_repo_urls p
    → claim_for metrics x q v (some (identity_of p))
      ≡ record { volume = v; notes = []; error = none }
unfolding claim_for note_changes identity_of
claim-identity_of metrics x p q v same urls =
    let noted = λ (d : List String × List String). note_changes metrics d v in
    if_holds (λ r. r ≡ record { volume = v; notes = []; error = none })
      (is_foreign (identity_of p) q) _ _ (λ e. absurd (own p q same e))
      (λ e.
        ap (λ us. noted (diff_strings (workspace_repo_urls p) us)) urls
        ∙ ap noted (diff_self (workspace_repo_urls p)))

-- A workspace that a boot stamped at its end is claimed by a later boot of the same Task with the same
-- repositories: nothing is wiped, nothing is noted or counted, and there is no error. The
-- identity that was stamped is taken to decode to itself.
pub claim-write :
    (c : Codec) (metrics : Bool) (x : Removal) (p q : Params) (v : Volume)
    → c.decode (c.encode (identity_of p)) ≡ some (identity_of p)
    → p.task_name ≡ q.task_name
    → workspace_repo_urls q ≡ workspace_repo_urls p
    → claim_workspace c metrics x q (write_workspace_identity c none p v).0
      ≡ record { volume = (write_workspace_identity c none p v).0; notes = []; error = none }
unfolding claim_workspace write_workspace_identity read_workspace_identity
claim-write c metrics x p q v decodes same urls =
    let v1 = (write_workspace_identity c none p v).0 in
    ap (claim_for metrics x q v1) decodes
    ∙ claim-identity_of metrics x p q v1 (ground (arith, eq_iff p.task_name q.task_name, same)) urls
