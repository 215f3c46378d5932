-- ===== src/Bootstrap/Skills/Clone/Whole.antt =====
-- internal/bootstrap/skills.go: the attempts of a clone together, and the next boot.
use mathlib.Core.Path.{subst}
use tatara_claude_code_wrapp.Common.{
  ℕ, zero, suc, ◌+◌, ◌≡◌, refl, sym, ◌∙◌, ◌||◌, inl, inr, Bool, true, false, Option, String,
  is_empty, trim_space, eq_refl, arith, if_holds,
}
use tatara_claude_code_wrapp.Bootstrap.Skills.Clone.{
  CloneParams, CloneDir, Remote, Site, Step, attempt, failed_clone, wait_after, attempts, ref_of,
  with_credentials, is_stamped, is_complete, clone_skills_repo,
}
use tatara_claude_code_wrapp.Bootstrap.Skills.Clone.Laws.{
  Grows, Grows-trans, Careful, IsBuilt-Grows, IsStamped, Fair, attempt-Fair,
}

module _ (r : Remote) (p : CloneParams) (ref : String) where
  -- If no failure is counted the directory is stamped.
  record Sound (s s' : Site) : Type 0 where
    careful : Careful r p ref s.dst s'
    grows : Grows s.trace s'.trace
    stamps : p.metrics ≡ true → s'.clone_failures ≡ s.clone_failures → IsStamped r p ref s'.dst

  one_won : (s : Site) (x : Step) → Fair r p ref s x → x.1 ≡ true → Sound s x.0
  one_won s x f won = record { careful = f.careful; grows = f.grows; stamps = λ m u. f.stamps won }

  all_lost : (s : Site) (x : Step) → Fair r p ref s x → Sound s (failed_clone p x.0)
  all_lost s x f =
      if_holds (Sound s) p.metrics _ _
        (λ m. record {
          careful = f.careful;
          grows = f.grows;
          stamps = λ n u. absurd (omega (arith, f.uncounted));
        })
        (λ m. record { careful = f.careful; grows = f.grows; stamps = λ n u. cc })

  one_lost :
      (s : Site) (x : Step) (n : ℕ) (s' : Site)
      → Fair r p ref s x
      → Sound (wait_after n x.0) s'
      → Sound s s'
  one_lost s x n s' f rest = record {
    careful = elim f.careful [
      | inl e ↦ subst (λ o. Careful r p ref o s') e rest.careful
      | inr b ↦ inr (IsBuilt-Grows r p ref rest.grows b.0, b.1)
    ];
    grows = Grows-trans f.grows rest.grows;
    stamps = λ m u. rest.stamps m (u ∙ sym f.uncounted);
  }

  attempts-Sound : (left n : ℕ) (s : Site) → Sound s (attempts r p ref left n s)
  unfolding attempts
  attempts-Sound zero n s =
      let f = attempt-Fair r p ref s in
      if_holds (Sound s) (attempt r p ref s).1 _ _ (λ won. one_won s (attempt r p ref s) f won)
        (λ _. all_lost s (attempt r p ref s) f)
  attempts-Sound (suc left) n s =
      let f = attempt-Fair r p ref s in
      if_holds (Sound s) (attempt r p ref s).1 _ _ (λ won. one_won s (attempt r p ref s) f won)
        (λ _.
          one_lost s (attempt r p ref s) n _ f
            (attempts-Sound left (n + 1) (wait_after n (attempt r p ref s).0)))

neither : (a b : Bool) → a ≡ false → b ≡ false → (a || b) ≡ true → ⊥
neither a b e f g = ground arith

with_credentials_dst : (p : CloneParams) (s : Site) → (with_credentials p s).dst ≡ s.dst
with_credentials_dst p s = ground arith

with_credentials_failures :
    (p : CloneParams) (s : Site) → (with_credentials p s).clone_failures ≡ s.clone_failures
with_credentials_failures p s = ground arith

-- The directory of the skills is left as it is, or it was absent or a clone of skills itself, and
-- behind some of the commands that ran a whole attempt succeeded: the four commands of git, and the
-- sentinel.
pub clone_skills_repo-Careful :
    (r : Remote) (p : CloneParams) (s : Site)
    → Careful r p (ref_of p) s.dst (clone_skills_repo r p s)
unfolding clone_skills_repo
clone_skills_repo-Careful r p s =
    let s1 = with_credentials p s in
    let same = with_credentials_dst p s in
    if_holds (Careful r p (ref_of p) s.dst) (is_empty p.skills_repo || is_empty p.skills_clone_dir)
      _ _ (λ _. inl refl)
      (λ _.
        if_holds (Careful r p (ref_of p) s.dst) (is_complete (ref_of p) s1.dst) _ _ (λ _. inl same)
          (λ _.
            subst (λ o. Careful r p (ref_of p) o (attempts r p (ref_of p) 2 1 s1)) same
              (attempts-Sound r p (ref_of p) 2 1 s1).careful))

stamped_complete :
    (r : Remote) (p : CloneParams) (ref : String) (o : Option CloneDir)
    → trim_space ref ≡ ref
    → IsStamped r p ref o
    → is_complete ref o ≡ true
stamped_complete r p ref o trimmed (d, e, stamp) =
    rw (e, is_complete) (rw (stamp, is_stamped) (rw trimmed (eq_refl ref)))

skipped :
    (r : Remote) (p : CloneParams) (s : Site)
    → is_empty p.skills_repo ≡ false
    → is_empty p.skills_clone_dir ≡ false
    → is_complete (ref_of p) s.dst ≡ true
    → clone_skills_repo r p s ≡ with_credentials p s
unfolding clone_skills_repo
skipped r p s repo dest complete =
    let there : is_complete (ref_of p) (with_credentials p s).dst ≡ true =
      rw (with_credentials_dst p s) complete in
    ground arith

left_complete :
    (r : Remote) (p : CloneParams) (s : Site)
    → p.metrics ≡ true
    → is_empty p.skills_repo ≡ false
    → is_empty p.skills_clone_dir ≡ false
    → trim_space (ref_of p) ≡ ref_of p
    → (clone_skills_repo r p s).clone_failures ≡ s.clone_failures
    → is_complete (ref_of p) (clone_skills_repo r p s).dst ≡ true
unfolding clone_skills_repo
left_complete r p s m repo dest trimmed =
    let s1 = with_credentials p s in
    if_holds
      (λ (x : Site). x.clone_failures ≡ s.clone_failures → is_complete (ref_of p) x.dst ≡ true)
      (is_empty p.skills_repo || is_empty p.skills_clone_dir) _ _
      (λ e. absurd (neither (is_empty p.skills_repo) (is_empty p.skills_clone_dir) repo dest e))
      (λ _.
        if_holds
          (λ (x : Site). x.clone_failures ≡ s.clone_failures → is_complete (ref_of p) x.dst ≡ true)
          (is_complete (ref_of p) s1.dst) _ _ (λ c u. c)
          (λ _ u. stamped_complete r p (ref_of p) _ trimmed (
            (attempts-Sound r p (ref_of p) 2 1 s1).stamps m
              (u ∙ sym (with_credentials_failures p s)))))

-- With the counter wired and a ref without space around it, a clone that counts no failure leaves a
-- directory that the next boot takes as it is: it runs no command but that for the credentials, and
-- changes nothing else.
pub clone_is_reused :
    (r : Remote) (p : CloneParams) (s : Site)
    → p.metrics ≡ true
    → is_empty p.skills_repo ≡ false
    → is_empty p.skills_clone_dir ≡ false
    → trim_space (ref_of p) ≡ ref_of p
    → (clone_skills_repo r p s).clone_failures ≡ s.clone_failures
    → clone_skills_repo r p (clone_skills_repo r p s) ≡ with_credentials p (clone_skills_repo r p s)
clone_is_reused r p s m repo dest trimmed fine =
    skipped r p (clone_skills_repo r p s) repo dest (left_complete r p s m repo dest trimmed fine)
