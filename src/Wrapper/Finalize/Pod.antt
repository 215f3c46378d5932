-- ===== src/Wrapper/Finalize/Pod.antt =====
-- cmd/wrapper/app.go: the turns of a pod that are being finalised, each at its own place.
use tatara_claude_code_wrapp.Common.{ℕ, zero, suc, List, [], ◌∷◌, none}
use tatara_claude_code_wrapp.Turn.Records.{Record}
use tatara_claude_code_wrapp.Wrapper.Finalize.{App, new_app, Reads, pushed, Flight, Setup, advance}

pub record Pod (P : Type 0) : Type 0 where
  pub app : App
  pub flights : List (Flight P)

module _ {P : Type 0} where
  abbrev pub new_pod : Pod P
  new_pod = record { app = new_app; flights = [] }

  abbrev pub new_flight : Record → Reads P → Flight P
  new_flight rec reads = record {
    rec = rec;
    reads = reads;
    stage = pushed;
    submitted = none;
    sent = none;
  }

  -- The turn at a place does its next section.
  unfoldable pub run_at : Setup → ℕ → App → List (Flight P) → App × List (Flight P)
  unfolding advance
  run_at s i a [] = (a, [])
  run_at s zero a (f ∷ fs) = let r = advance s a f in (r.0, r.1 ∷ fs)
  run_at s (suc i) a (f ∷ fs) = let r = run_at s i a fs in (r.0, f ∷ r.1)

-- A turn's work is committed and pushed, and its record reports that; or the turn at a place moves.
pub data Event (P : Type 0) : Type 0 where
  begins : Record → Reads P → Event P
  moves : ℕ → Event P

module _ {P : Type 0} where
  unfoldable pub perform : Setup → Event P → Pod P → Pod P
  unfolding run_at
  perform s (begins rec reads) p = record p { flights = new_flight rec reads ∷ p.flights }
  perform s (moves i) p = let r = run_at s i p.app p.flights in record { app = r.0; flights = r.1 }

  unfoldable pub run : Setup → List (Event P) → Pod P → Pod P
  unfolding perform
  run s [] p = p
  run s (e ∷ es) p = run s es (perform s e p)
