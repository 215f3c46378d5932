-- ===== src/Transcript/Scan.antt =====
-- internal/transcript/result.go: the loop over the lines of a transcript that its readers share.
use tatara_claude_code_wrapp.Common.{◌≡◌, refl, Bool, List, [], ◌∷◌, ◌++◌, String, ap, ◌∙◌}

-- A file that does not open, or the lines that the scanner yields, and whether it ended in an error.
pub data Transcript : Type 0 where
  unopened : Transcript
  scanned : List String → Bool → Transcript

module _ {ℓ} {B : Type ℓ} where
  -- `for sc.Scan() { ... }`
  unfoldable pub scan : (String → B → B) → List String → B → B
  scan step [] b = b
  scan step (l ∷ ls) b = scan step ls (step l b)

  -- A line that the loop passes over.
  abbrev pub Skips : (String → B → B) → String → Type ℓ
  Skips step l = (b : B) → step l b ≡ b

  abbrev pub AllSkip : (String → B → B) → List String → Type ℓ
  AllSkip step [] = Unit
  AllSkip step (l ∷ ls) = Skips step l × AllSkip step ls

  pub scan-append :
      (step : String → B → B) (xs ys : List String) (b : B)
      → scan step (xs ++ ys) b ≡ scan step ys (scan step xs b)
  unfolding scan
  scan-append step [] ys b = refl
  scan-append step (x ∷ xs) ys b = scan-append step xs ys (step x b)

  pub scan_skips :
      (step : String → B → B) (ls : List String) (b : B) → AllSkip step ls → scan step ls b ≡ b
  unfolding scan
  scan_skips step [] b s = refl
  scan_skips step (l ∷ ls) b (s, ss) = ap (scan step ls) (s b) ∙ scan_skips step ls b ss

  -- The last line that is not passed over decides.
  pub scan_last :
      (step : String → B → B) (before after : List String) (l : String) (b : B)
      → AllSkip step after
      → scan step (before ++ l ∷ after) b ≡ step l (scan step before b)
  unfolding scan
  scan_last step before after l b s =
      scan-append step before (l ∷ after) b ∙ scan_skips step after (step l (scan step before b)) s
