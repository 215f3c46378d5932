-- ===== src/Wrapper/Finalize/Sums.antt =====
-- What the sections of the turns move between the app and the turns, summed over all turns.
use tatara_claude_code_wrapp.Common.{ℕ, zero, suc, ◌+◌, ◌≡◌, List, [], ◌∷◌, arith}
use tatara_claude_code_wrapp.Wrapper.Finalize.{App, Flight, Setup, advance}
use tatara_claude_code_wrapp.Wrapper.Finalize.Pod.{run_at}

abbrev pub total : {P : Type 0} → (Flight P → ℕ) → List (Flight P) → ℕ
total g [] = 0
total g (f ∷ fs) = g f + total g fs

-- What a turn takes in, the app and the turn hold afterwards.
abbrev pub Conserves : {P : Type 0} → (App → ℕ) → (Flight P → ℕ) → (Flight P → ℕ) → Setup → Type 0
Conserves {P} held carried taken s =
    (a : App) (f : Flight P)
    → held (advance s a f).0 + carried (advance s a f).1 + taken f
      ≡ held a + carried f + taken (advance s a f).1

module _ {P : Type 0} (held : App → ℕ) (carried taken : Flight P → ℕ) (s : Setup)
    (step : Conserves held carried taken s) where
  pub run_at-Conserves :
      (i : ℕ) (a : App) (fs : List (Flight P))
      → held (run_at s i a fs).0 + total carried (run_at s i a fs).1 + total taken fs
        ≡ held a + total carried fs + total taken (run_at s i a fs).1
  unfolding run_at
  run_at-Conserves i a [] = omega arith
  run_at-Conserves zero a (f ∷ fs) = omega (arith, step a f)
  run_at-Conserves (suc i) a (f ∷ fs) = omega (arith, run_at-Conserves i a fs)
