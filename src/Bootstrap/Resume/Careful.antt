-- ===== src/Bootstrap/Resume/Careful.antt =====
-- internal/bootstrap/resume.go: `PrepareWorkspace` loses no work as long as git can be made to keep it.
use tatara_claude_code_wrapp.Common.{
  ◌≡◌, ◌⊎◌, ap, true, false, List, [], ◌∷◌, Option, none, some, String, if_holds, inl, inr,
}
use tatara_claude_code_wrapp.Bootstrap.Git.{Trace, Git, after, succeeds, is_nil}
use tatara_claude_code_wrapp.Bootstrap.World.{
  World, Repair, run, record_recovery, record_lock_cleared,
}
use tatara_claude_code_wrapp.Bootstrap.Resume.Rescue.{wipe, removal_outcome, removed}
use tatara_claude_code_wrapp.Bootstrap.Resume.Prepare.{prepare_workspace}
use tatara_claude_code_wrapp.Bootstrap.Resume.Steps.{Keeps, Aborts, FallsBack, IsHeld}
use tatara_claude_code_wrapp.Bootstrap.Resume.Laws.{Ends, prepare_final}

-- From `start` on each command keeps everything, or aborts an operation whose marker is there, or is the
-- fallback right behind such an abort that failed, or is a hard reset right behind two probes that
-- found nothing uncommitted.
pub data Careful (w : World) (dest : String) (start : Trace) : Trace → Type 0 where
  begun : Careful w dest start start
  keeps :
      {t : Trace} (place : String) (args : List String)
      → Keeps args
      → Careful w dest start t
      → Careful w dest start (after place args t)
  aborts :
      {t : Trace} (marker : String) (args : List String)
      → Aborts marker args
      → w.has_marker t dest marker ≡ true
      → Careful w dest start t
      → Careful w dest start (after dest args t)
  falls_back :
      {t : Trace} (marker : String) (args next : List String)
      → FallsBack marker args next
      → w.has_marker t dest marker ≡ true
      → succeeds w.git dest args t ≡ false
      → Careful w dest start t
      → Careful w dest start (after dest next (after dest args t))
  resets :
      {t : Trace}
      → succeeds w.git dest ("diff" ∷ "--quiet" ∷ []) t ≡ true
      → succeeds w.git dest
          ("diff" ∷ "--cached" ∷ "--quiet" ∷ [])
          (after dest ("diff" ∷ "--quiet" ∷ []) t)
        ≡ true
      → Careful w dest start t
      → Careful w dest start (
          after dest ("reset" ∷ "--hard" ∷ "HEAD" ∷ []) (
            after dest
              ("diff" ∷ "--cached" ∷ "--quiet" ∷ [])
              (after dest ("diff" ∷ "--quiet" ∷ []) t)))

module _ (w : World) (dest : String) (start : Trace) where
  abbrev IsCareful : Repair → Type 0
  IsCareful s = Careful w dest start s.trace

  IsCareful-IsHeld : IsHeld w dest IsCareful
  unfolding run record_recovery record_lock_cleared
  IsCareful-IsHeld = record {
    runs = λ dir args s c h. keeps dir args c h;
    aborts = λ marker args s c e h. aborts marker args c e h;
    falls_back = λ marker args next s c e f h. falls_back marker args next c e f h;
    recovers = λ v kind s h. if_holds IsCareful v.metrics _ s (λ e. h) (λ e. h);
    clears = λ v label s h. if_holds IsCareful v.metrics _ s (λ e. h) (λ e. h);
    skips = λ v s h. if_holds IsCareful v.metrics _ s (λ e. h) (λ e. h);
  }

  outcome-IsCareful :
      (what kind : String) (s : Repair) (o : Option String)
      → IsCareful s
      → IsCareful (removal_outcome w dest what kind s o).0
  outcome-IsCareful what kind s none h = IsCareful-IsHeld.recovers w kind (removed dest s) h
  outcome-IsCareful what kind s (some e) h = h

  IsCareful-Ends : Ends w dest IsCareful IsCareful
  unfolding run record_recovery wipe
  IsCareful-Ends = record {
    held = IsCareful-IsHeld;
    stays = λ s h. h;
    resets = λ s h e f. if_holds IsCareful w.metrics _ _ (λ q. resets e f h) (λ q. resets e f h);
    wipes = λ args what kind s c e h. outcome-IsCareful what kind _ _ (keeps dest args c h);
  }

-- Whatever git and the file system answer, each command of `PrepareWorkspace` keeps every commit and
-- every change, but for three: the abort of a merge, rebase, cherry-pick, revert or bisect whose marker
-- is there; its fallback (`reset --merge`, `am --abort`) right behind an abort that failed; and a hard
-- reset where the two commands right before it found nothing uncommitted.
pub prepare-Careful :
    (w : World) (dest : String) (s : Repair)
    → Careful w dest s.trace (prepare_workspace w dest s).state.trace
prepare-Careful w dest s =
    prepare_final w dest (IsCareful w dest s.trace) (IsCareful w dest s.trace)
      (IsCareful-Ends w dest s.trace) s begun

-- The last command that was run failed.
abbrev pub LastRefused : Git → Trace → Type 0
LastRefused git [] = ⊥
LastRefused git (c ∷ t) = is_nil (git t c) ≡ false

module _ (w : World) (dest : String) where
  abbrev IsThere : Repair → Type 0
  IsThere s = s.removals ≡ []

  abbrev pub IsAccounted : Repair → Type 0
  IsAccounted s = (s.removals ≡ []) ⊎ ((s.removals ≡ dest ∷ []) × LastRefused w.git s.trace)

  IsThere-IsHeld : IsHeld w dest IsThere
  unfolding run record_recovery record_lock_cleared
  IsThere-IsHeld = record {
    runs = λ dir args s c h. h;
    aborts = λ marker args s c e h. h;
    falls_back = λ marker args next s c e f h. h;
    recovers = λ v kind s h. if_holds IsThere v.metrics _ s (λ e. h) (λ e. h);
    clears = λ v label s h. if_holds IsThere v.metrics _ s (λ e. h) (λ e. h);
    skips = λ v s h. if_holds IsThere v.metrics _ s (λ e. h) (λ e. h);
  }

  outcome-IsAccounted :
      (what kind : String) (s : Repair) (o : Option String)
      → LastRefused w.git s.trace
      → IsThere s
      → IsAccounted (removal_outcome w dest what kind s o).0
  unfolding record_recovery
  outcome-IsAccounted what kind s none r h =
      if_holds IsAccounted w.metrics _ (removed dest s) (λ e. inr (ap (λ x. dest ∷ x) h, r))
        (λ e. inr (ap (λ x. dest ∷ x) h, r))
  outcome-IsAccounted what kind s (some e) r h = inr (ap (λ x. dest ∷ x) h, r)

  IsAccounted-Ends : Ends w dest IsThere IsAccounted
  unfolding run record_recovery wipe
  IsAccounted-Ends = record {
    held = IsThere-IsHeld;
    stays = λ s h. inl h;
    resets = λ s h e f. if_holds IsAccounted w.metrics _ _ (λ q. inl h) (λ q. inl h);
    wipes = λ args what kind s c e h. outcome-IsAccounted what kind (run dest args s) _ e h;
  }

-- `PrepareWorkspace` removes no directory but the checkout, and that once and only right behind a
-- command of git that failed.
pub prepare-IsAccounted :
    (w : World) (dest : String) (s : Repair)
    → s.removals ≡ []
    → IsAccounted w dest (prepare_workspace w dest s).state
prepare-IsAccounted w dest s h =
    prepare_final w dest (IsThere w dest) (IsAccounted w dest) (IsAccounted-Ends w dest) s h
