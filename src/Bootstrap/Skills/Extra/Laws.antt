-- ===== src/Bootstrap/Skills/Extra/Laws.antt =====
-- internal/bootstrap/skills.go: an extra source stays in a directory of its own.
use tatara_claude_code_wrapp.Common.{
  ℕ, ◌≡◌, refl, Bool, true, false, not, ◌||◌, List, [], ◌∷◌, Option, none, some, String, if_holds,
  All, All-append, is_empty, contains, arith,
}
use tatara_claude_code_wrapp.Bootstrap.Git.{Command, command, succeeds}
use tatara_claude_code_wrapp.Bootstrap.Skills.Clone.{
  init_args, remote_args, fetch_args, checkout_args,
}
use tatara_claude_code_wrapp.Bootstrap.Skills.Extra.{
  ExtraSkillSource, parse_extra_skill_sources, is_valid_name, ExtraWorld, Extra, ran, Cloned,
  fetch_extra, add_extra, init_extra, extra_ref, clone_extra_skill_source, counted, install_cloned,
  take_source, is_http, escapes, take_named, install_source, install_all,
  install_extra_skill_sources,
}

module _ (w : ExtraWorld) where
  -- A directory below the base that has a valid name.
  abbrev pub IsConfined : String → Type 0
  IsConfined dir = (name : String) × (is_valid_name name ≡ true) × (dir ≡ w.join w.base name)

  -- The commands that make the clone of a source in a confined directory: the first one runs in none
  -- and names the directory, each other runs in it, and the address is one of http or https.
  pub data RunsConfined : Command → Type 0 where
    inits : (dir : String) → IsConfined dir → RunsConfined (command "" ("init" ∷ "-q" ∷ dir ∷ []))
    adds :
        (dir url : String)
        → IsConfined dir
        → is_http url ≡ true
        → RunsConfined (command dir ("remote" ∷ "add" ∷ "origin" ∷ url ∷ []))
    fetches :
        (dir ref : String)
        → IsConfined dir
        → RunsConfined (command dir ("fetch" ∷ "--depth" ∷ "1" ∷ "origin" ∷ ref ∷ []))
    checks_out :
        (dir : String)
        → IsConfined dir
        → RunsConfined (command dir ("checkout" ∷ "-q" ∷ "--detach" ∷ "FETCH_HEAD" ∷ []))

  -- What ran and what was removed.
  pub record StaysConfined (s : Extra) : Type 0 where
    pub commands : All RunsConfined s.trace
    pub removals : All IsConfined s.removed

  ran_held :
      (dir : String) (args : List String) (s : Extra)
      → RunsConfined (command dir args)
      → StaysConfined s
      → StaysConfined (ran dir args s)
  ran_held dir args s ok h = record { commands = (ok, h.commands); removals = h.removals }

  valid_of : (b : Bool) → not b ≡ false → b ≡ true
  valid_of b e = ground arith

  module _ (src : ExtraSkillSource) (valid : is_valid_name src.name ≡ true) where
    abbrev here : String
    here = w.join w.base src.name

    confined : IsConfined here
    confined = (src.name, valid, refl)

    abbrev Held : Cloned → Type 0
    Held c = StaysConfined c.0

    fetch-Held : (s : Extra) → StaysConfined s → Held (fetch_extra w src here s)
    unfolding fetch_extra
    fetch-Held s h =
        let args = fetch_args (extra_ref src) in
        let now = ran_held here args s (fetches here (extra_ref src) confined) h in
        if_holds Held (succeeds w.git here args s.trace) _ _
          (λ _. ran_held here checkout_args (ran here args s) (checks_out here confined) now)
          (λ _. now)

    counted_held :
        (o : Option String) (n : ℕ) (s : Extra) → StaysConfined s → StaysConfined (counted o n s)
    counted_held none n s h = record { commands = h.commands; removals = h.removals }
    counted_held (some e) n s h = h

    module _ (http : is_http src.url ≡ true) where
      add-Held : (s : Extra) → StaysConfined s → Held (add_extra w src here s)
      unfolding add_extra
      add-Held s h =
          let args = remote_args src.url in
          let now = ran_held here args s (adds here src.url confined http) h in
          if_holds Held (succeeds w.git here args s.trace) _ _
            (λ _. fetch-Held (ran here args s) now) (λ _. now)

      init-Held : (s : Extra) → StaysConfined s → Held (init_extra w src here s)
      unfolding init_extra
      init-Held s h =
          let now = ran_held "" (init_args here) s (inits here confined) h in
          if_holds Held (succeeds w.git "" (init_args here) s.trace) _ _
            (λ _. add-Held (ran "" (init_args here) s) now) (λ _. now)

      clone_held :
          (s : Extra) → StaysConfined s → StaysConfined (clone_extra_skill_source w src here s).0
      unfolding clone_extra_skill_source
      clone_held s h =
          if_holds (λ (c : Cloned). StaysConfined c.0) (w.has_git s.trace here) _ _ (λ _. h)
            (λ _. init-Held _ (record {
              commands = h.commands;
              removals = All-append IsConfined s.removed (here ∷ []) h.removals (confined, tt);
            }))

      take_held : (s : Extra) → StaysConfined s → StaysConfined (take_source w src s)
      unfolding take_source install_cloned
      take_held s h =
          let done = clone_extra_skill_source w src here s in
          let held = clone_held s h in
          if_holds StaysConfined done.1 _ _ (λ _. counted_held _ _ done.0 held)
            (λ _.
              if_holds StaysConfined w.metrics _ _
                (λ _. record { commands = held.commands; removals = held.removals }) (λ _. held))

    named_held : (s : Extra) → StaysConfined s → StaysConfined (take_named w src s)
    unfolding take_named
    named_held s h =
        let s1 = record s { seen = src.name ∷ s.seen } in
        let h1 : StaysConfined s1 = record { commands = h.commands; removals = h.removals } in
        if_holds StaysConfined (not (is_http src.url)) _ _ (λ _. h1)
          (λ e.
            if_holds StaysConfined (escapes w src.subdir) _ _ (λ _. h1)
              (λ _. take_held (valid_of (is_http src.url) e) s1 h1))

  source_held :
      (src : ExtraSkillSource) (s : Extra)
      → StaysConfined s
      → StaysConfined (install_source w src s)
  unfolding install_source
  source_held src s h =
      if_holds StaysConfined (is_empty src.name || is_empty src.url) _ _ (λ _. h)
        (λ _.
          if_holds StaysConfined (not (is_valid_name src.name)) _ _ (λ _. h)
            (λ e.
              if_holds StaysConfined (contains src.name s.seen) _ _ (λ _. h)
                (λ _. named_held src (valid_of (is_valid_name src.name) e) s h)))

  all_held :
      (srcs : List ExtraSkillSource) (s : Extra)
      → StaysConfined s
      → StaysConfined (install_all w srcs s)
  unfolding install_all
  all_held [] s h = h
  all_held (src ∷ srcs) s h = all_held srcs (install_source w src s) (source_held src s h)

  -- Whatever the sources are, each directory that is removed is the base joined with a valid name, of
  -- small letters, digits and dashes, and each command of git is one of the four that clone a source
  -- into such a directory, from an address of http or https.
  pub install_extra_skill_sources-StaysConfined :
      (json : String → Option (List ExtraSkillSource)) (raw : String) (mkdir : Bool)
      → StaysConfined (install_extra_skill_sources w json raw mkdir [])
  unfolding install_extra_skill_sources
  install_extra_skill_sources-StaysConfined json raw mkdir =
      let fresh : StaysConfined (install_extra_skill_sources w json raw false []) = record {
        commands = tt;
        removals = tt;
      } in
      if_holds StaysConfined mkdir _ _ (λ _. all_held (parse_extra_skill_sources json raw) _ fresh)
        (λ _. fresh)
