-- ===== src/Bootstrap/Skills/Clone/Laws.antt =====
-- internal/bootstrap/skills.go: what the clone of the skills may destroy, and what it leaves.
use tatara_claude_code_wrapp.Common.{
  ◌≡◌, refl, sym, ap, ◌∙◌, ◌⊎◌, inl, inr, true, false, List, [], ◌∷◌, ◌++◌, Option, none, some,
  String, if_holds,
}
use mathlib.Core.Path.{subst}
use mathlib.Core.List.{append_assoc}
use tatara_claude_code_wrapp.Bootstrap.Git.{Command, command, Trace, after, succeeds}
use tatara_claude_code_wrapp.Bootstrap.Skills.Clone.{
  CloneParams, CloneDir, Remote, Site, git_run, is_skills_clone, Step, rename, behind_removal,
  replace, promote_skills_clone, init_args, remote_args, fetch_args, checkout_args,
  stamp_and_promote, attempt,
}

-- A directory that may go: none, or a clone of skills.
abbrev pub IsReplaceable : Option CloneDir → Type 0
IsReplaceable none = Unit
IsReplaceable (some d) = is_skills_clone d ≡ true

-- More commands have run.
abbrev pub Grows : Trace → Trace → Type 0
Grows t t' = (more : List Command) × (t' ≡ more ++ t)

pub Grows-trans : {t u v : Trace} → Grows t u → Grows u v → Grows t v
Grows-trans {t} (xs, e) (ys, f) = (ys ++ xs, f ∙ ap (λ zs. ys ++ zs) e ∙ sym (append_assoc ys xs t))

module _ (r : Remote) (p : CloneParams) (ref : String) where
  abbrev pub inited : Trace → Trace
  inited t = after "" (init_args p.staging) t

  abbrev pub added : Trace → Trace
  added t = after p.staging (remote_args p.skills_repo) (inited t)

  abbrev pub fetched : Trace → Trace
  fetched t = after p.staging (fetch_args ref) (added t)

  abbrev pub built : Trace → Trace
  built t = after p.staging checkout_args (fetched t)

  -- Behind `before` a whole attempt succeeded up to the sentinel, by the end of the trace `t`.
  pub record IsBuilt (t : Trace) : Type 0 where
    pub before : Trace
    pub more : List Command
    pub ran : t ≡ more ++ built before
    pub init_works : succeeds r.git "" (init_args p.staging) before ≡ true
    pub add_works : succeeds r.git p.staging (remote_args p.skills_repo) (inited before) ≡ true
    pub fetch_works : succeeds r.git p.staging (fetch_args ref) (added before) ≡ true
    pub checkout_works : succeeds r.git p.staging checkout_args (fetched before) ≡ true
    pub stamp_works : r.writes_sentinel (built before) ≡ true

  -- What became of the directory that was there.
  abbrev pub Careful : Option CloneDir → Site → Type 0
  Careful old s = (s.dst ≡ old) ⊎ (IsBuilt s.trace × IsReplaceable old)

  pub IsBuilt-Grows : {t t' : Trace} → Grows t t' → IsBuilt t → IsBuilt t'
  IsBuilt-Grows {t} {t'} g b = record {
    before = b.before;
    more = (Grows-trans (b.more, b.ran) g).0;
    ran = (Grows-trans (b.more, b.ran) g).1;
    init_works = b.init_works;
    add_works = b.add_works;
    fetch_works = b.fetch_works;
    checkout_works = b.checkout_works;
    stamp_works = b.stamp_works;
  }

  abbrev pub IsStamped : Option CloneDir → Type 0
  IsStamped o = (d : CloneDir) × (o ≡ some d) × (d.sentinel ≡ some ref)

  pub record Fair (s : Site) (x : Step) : Type 0 where
    pub careful : Careful s.dst x.0
    pub grows : Grows s.trace x.0.trace
    pub stamps : x.1 ≡ true → IsStamped x.0.dst
    pub uncounted : x.0.clone_failures ≡ s.clone_failures

  abbrev cmd1 : List Command
  cmd1 = command "" (init_args p.staging) ∷ []

  abbrev cmd2 : List Command
  cmd2 = command p.staging (remote_args p.skills_repo) ∷ cmd1

  abbrev cmd3 : List Command
  cmd3 = command p.staging (fetch_args ref) ∷ cmd2

  abbrev cmd4 : List Command
  cmd4 = command p.staging checkout_args ∷ cmd3

  -- A step that fails and leaves the directory alone.
  stopped :
      {s s' : Site}
      → Grows s.trace s'.trace
      → s'.dst ≡ s.dst
      → s'.clone_failures ≡ s.clone_failures
      → Fair s (s', false)
  stopped g e f = record { careful = inl e; grows = g; stamps = λ t. cc; uncounted = f }

  module _ (staged : CloneDir) (has_ref : staged.sentinel ≡ some ref) where
    rename-Fair :
        (s s' : Site)
        → s'.trace ≡ s.trace
        → s'.clone_failures ≡ s.clone_failures
        → IsBuilt s'.trace
        → IsReplaceable s.dst
        → Fair s (rename r staged s')
    rename-Fair s s' e f b c =
        if_holds (Fair s) (r.renames s'.trace) _ _
          (λ _. record {
            careful = inr (b, c);
            grows = ([], e);
            stamps = λ _. (staged, refl, has_ref);
            uncounted = f;
          })
          (λ _. record { careful = inr (b, c); grows = ([], e); stamps = λ t. cc; uncounted = f })

    removed-Fair :
        (s : Site) (o : Option (Option CloneDir))
        → IsBuilt s.trace
        → IsReplaceable s.dst
        → Fair s (behind_removal r staged o s)
    removed-Fair s none b c = rename-Fair s (record s { dst = none }) refl refl b c
    removed-Fair s (some rest) b c = record {
      careful = inr (b, c);
      grows = ([], refl);
      stamps = λ t. cc;
      uncounted = refl;
    }

    replace-Fair :
        (s : Site) (o : Option CloneDir)
        → s.dst ≡ o
        → IsBuilt s.trace
        → Fair s (replace r staged o s)
    replace-Fair s none e b = rename-Fair s s refl refl b (rw e tt)
    replace-Fair s (some d) e b =
        if_holds (Fair s) (is_skills_clone d) _ _
          (λ c. removed-Fair s (r.removal s.trace d) b (rw e c)) (λ c. stopped ([], refl) refl refl)

    promote-Fair : (s : Site) → IsBuilt s.trace → Fair s (promote_skills_clone r staged s)
    unfolding promote_skills_clone
    promote-Fair s b =
        if_holds (Fair s) (r.stat_fails s.trace) _ _ (λ _. stopped ([], refl) refl refl)
          (λ _. replace-Fair s s.dst refl b)

  Fair-later :
      {s s' : Site} {x : Step}
      → Grows s.trace s'.trace
      → s'.dst ≡ s.dst
      → s'.clone_failures ≡ s.clone_failures
      → Fair s' x
      → Fair s x
  Fair-later {s} {s'} {x} g e f fair = record {
    careful = subst (λ o. Careful o x.0) e fair.careful;
    grows = Grows-trans g fair.grows;
    stamps = fair.stamps;
    uncounted = fair.uncounted ∙ f;
  }

  pub attempt-Fair : (s : Site) → Fair s (attempt r p ref s)
  unfolding attempt stamp_and_promote
  attempt-Fair s =
      let t = s.trace in
      let s1 = git_run "" (init_args p.staging) s in
      let s2 = git_run p.staging (remote_args p.skills_repo) s1 in
      let s3 = git_run p.staging (fetch_args ref) s2 in
      let s4 = git_run p.staging checkout_args s3 in
      if_holds (Fair s) (succeeds r.git "" (init_args p.staging) t) _ _
        (λ a.
          if_holds (Fair s) (succeeds r.git p.staging (remote_args p.skills_repo) (inited t)) _ _
            (λ b.
              if_holds (Fair s) (succeeds r.git p.staging (fetch_args ref) (added t)) _ _
                (λ c.
                  if_holds (Fair s) (succeeds r.git p.staging checkout_args (fetched t)) _ _
                    (λ d.
                      if_holds (Fair s) (r.writes_sentinel (built t)) _ _
                        (λ e.
                          Fair-later (cmd4, refl) refl refl
                            (promote-Fair (record (r.fetched s4.trace) { sentinel = some ref }) refl
                              s4
                              (record {
                                before = t;
                                more = [];
                                ran = refl;
                                init_works = a;
                                add_works = b;
                                fetch_works = c;
                                checkout_works = d;
                                stamp_works = e;
                              })))
                        (λ _. stopped (cmd4, refl) refl refl))
                    (λ _. stopped (cmd4, refl) refl refl))
                (λ _. stopped (cmd3, refl) refl refl))
            (λ _. stopped (cmd2, refl) refl refl))
        (λ _. stopped (cmd1, refl) refl refl)
