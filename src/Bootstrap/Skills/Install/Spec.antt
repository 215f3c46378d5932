-- ===== src/Bootstrap/Skills/Install/Spec.antt =====
-- internal/bootstrap/skills.go: which skills a source gives, without the walk.
use mathlib.Core.List.{append-nil, append_assoc}
use tatara_claude_code_wrapp.Common.{
  ◌+◌, ◌≡◌, refl, sym, ◌∙◌, Bool, true, false, List, [], ◌∷◌, ◌++◌, map, none, String,
  if◌then◌else◌, arith, length, Bool-cases, inl, inr,
}
use tatara_claude_code_wrapp.Bootstrap.Skills.{should_install, parse_profiles}
use tatara_claude_code_wrapp.Bootstrap.Skills.Install.{
  missing, unreadable, holds, Node, file, broken, dir, Nodes, nil, cons, Installed, Installer,
  copied, unless_failed, target_of, install_skill, walk, walk_all, none_yet,
  install_skills_from_src,
}

-- A directory with a readable `SKILL.md`: its path and that file.
abbrev pub Skill : Type 0
Skill = String × String

-- The topmost skills of a tree: what stands below a skill is a part of it.
mutual
  pub skills_in : Node → List Skill
  skills_in file = []
  skills_in (broken e) = []
  skills_in (dir path missing below) = skills_of below
  skills_in (dir path unreadable below) = skills_of below
  skills_in (dir path (holds skill_md) below) = (path, skill_md) ∷ []

  pub skills_of : Nodes → List Skill
  skills_of nil = []
  skills_of (cons n ns) = skills_in n ++ skills_of ns

-- Every listing outside the skills succeeds.
unfoldable mutual
  pub IsListed : Node → Type 0
  IsListed file = Unit {0}
  IsListed (broken e) = ⊥
  IsListed (dir path missing below) = AreListed below
  IsListed (dir path unreadable below) = AreListed below
  IsListed (dir path (holds skill_md) below) = Unit {0}

  pub AreListed : Nodes → Type 0
  AreListed nil = Unit {0}
  AreListed (cons n ns) = IsListed n × AreListed ns

module _ (x : Installer) where
  abbrev pub is_for_profile : Skill → Bool
  is_for_profile (path, skill_md) = should_install x.profile (parse_profiles x.yaml skill_md)

  pub chosen : List Skill → List Skill
  chosen [] = []
  chosen (s ∷ ss) = let rest = chosen ss in if is_for_profile s then s ∷ rest else rest

  abbrev pub targets_of : List Skill → List String
  targets_of = map (λ s. target_of x s.0)

  -- The walk is a fold over the skills.
  plus : Installed → Skill → Installed
  plus r s = if is_for_profile s then copied (target_of x s.0) none r else r

  take_all : Installed → List Skill → Installed
  take_all r [] = r
  take_all r (s ∷ ss) = take_all (plus r s) ss

  take_all-append :
      (r : Installed) (xs ys : List Skill) → take_all r (xs ++ ys) ≡ take_all (take_all r xs) ys
  unfolding take_all
  take_all-append r [] ys = refl
  take_all-append r (s ∷ xs) ys = take_all-append (plus r s) xs ys

  plus_error : (r : Installed) (s : Skill) → (plus r s).error ≡ r.error
  unfolding plus
  plus_error r s = ground arith

  take_all_error : (r : Installed) (ss : List Skill) → (take_all r ss).error ≡ r.error
  unfolding take_all
  take_all_error r [] = refl
  take_all_error r (s ∷ ss) = take_all_error (plus r s) ss ∙ plus_error r s

  module _ (copies : (path target : String) → x.copy_skill_dir path target ≡ none) where
    install_skill_lem :
        (path skill_md : String) (below : Nodes) (r : Installed)
        → install_skill x path skill_md r ≡ take_all r (skills_in (dir path (holds skill_md) below))
    unfolding install_skill take_all plus skills_in
    install_skill_lem path skill_md below r = rw (copies path (target_of x path))

    mutual
      unfolding walk walk_all take_all skills_in skills_of IsListed AreListed

      walk_lem :
          (n : Node) (r : Installed)
          → r.error ≡ none
          → IsListed n
          → walk x n r ≡ take_all r (skills_in n)
      walk_lem file r e h = refl
      walk_lem (broken m) r e h = absurd h
      walk_lem (dir path missing below) r e h = walk_all_lem below r e h
      walk_lem (dir path unreadable below) r e h = walk_all_lem below r e h
      walk_lem (dir path (holds skill_md) below) r e h = install_skill_lem path skill_md below r

      walk_all_lem :
          (ns : Nodes) (r : Installed)
          → r.error ≡ none
          → AreListed ns
          → walk_all x ns r ≡ take_all r (skills_of ns)
      walk_all_lem nil r e h = refl
      walk_all_lem (cons n ns) r e h =
          let first = walk_lem n r e h.0 in
          let fine = take_all_error r (skills_in n) ∙ e in
          let rest = walk_all_lem ns (take_all r (skills_in n)) fine h.1 in
          rw first
            (rw (fine, unless_failed) (rest ∙ sym (take_all-append r (skills_in n) (skills_of ns))))

  plus_chosen :
      (r : Installed) (s : Skill)
      → is_for_profile s ≡ true
      → plus r s ≡ copied (target_of x s.0) none r
  unfolding plus
  plus_chosen r s e = rw e

  plus_other : (r : Installed) (s : Skill) → is_for_profile s ≡ false → plus r s ≡ r
  unfolding plus
  plus_other r s e = rw e

  take_all_installed :
      (r : Installed) (ss : List Skill)
      → (take_all r ss).installed ≡ r.installed + length (chosen ss)
  unfolding take_all chosen
  take_all_installed r [] = omega arith
  take_all_installed r (s ∷ ss) = elim (Bool-cases (is_for_profile s)) [
    | inl e ↦
        rw (plus_chosen r s e, take_all)
          (rw e (omega (arith, take_all_installed (copied (target_of x s.0) none r) ss)))
    | inr e ↦ rw (plus_other r s e, take_all) (rw e (take_all_installed r ss))
  ]

  take_all_targets :
      (r : Installed) (ss : List Skill)
      → (take_all r ss).targets ≡ r.targets ++ targets_of (chosen ss)
  unfolding take_all chosen
  take_all_targets r [] = sym (append-nil r.targets)
  take_all_targets r (s ∷ ss) = elim (Bool-cases (is_for_profile s)) [
    | inl e ↦
        rw (plus_chosen r s e, take_all)
          (rw e (
            take_all_targets (copied (target_of x s.0) none r) ss
            ∙ append_assoc r.targets (target_of x s.0 ∷ []) (targets_of (chosen ss))))
    | inr e ↦ rw (plus_other r s e, take_all) (rw e (take_all_targets r ss))
  ]

  -- If every copy and every listing succeeds, the topmost skills of a source that are for the profile,
  -- and no others, are each copied to the directory of their name, in order; they are counted, and there
  -- is no error.
  pub install_skills_from_src_lem :
      (below : Nodes)
      → ((path target : String) → x.copy_skill_dir path target ≡ none)
      → AreListed below
      → install_skills_from_src x below ≡ record {
        installed = length (chosen (skills_of below));
        targets = targets_of (chosen (skills_of below));
        error = none;
      }
  unfolding install_skills_from_src
  install_skills_from_src_lem below copies listed =
      let ss = skills_of below in
      let walked = walk_all_lem copies below none_yet refl listed in
      ground (
        arith,
        walked,
        take_all_installed none_yet ss,
        take_all_targets none_yet ss,
        take_all_error none_yet ss,
      )
