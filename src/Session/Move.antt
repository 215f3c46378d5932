-- ===== src/Session/Move.antt =====
-- internal/session: the life of the turn slot, as a relation of the manager before and after.
pub mod Sections
pub mod Endings
use tatara_claude_code_wrapp.Common.{ℕ, ◌+◌, ◌≡◌, ◌≢◌, Option, none, some, String, Time}
use tatara_claude_code_wrapp.Session.State.{Manager}
use tatara_claude_code_wrapp.Turn.Store
use tatara_claude_code_wrapp.Turn.Laws.{status}
use tatara_claude_code_wrapp.Turn.Closing.{Ending, completes, fails, is_interrupted, close}

-- The counters of turns, and the slot, are as they were.
pub record SameSlot (m n : Manager) : Type 0 where
  pub current : n.current ≡ m.current
  pub last_completed : n.last_completed ≡ m.last_completed
  pub finished : n.turns_completed ≡ m.turns_completed
  pub succeeded : n.turns_succeeded ≡ m.turns_succeeded
  pub complete : n.metrics.turns_complete ≡ m.metrics.turns_complete
  pub failed : n.metrics.turns_failed ≡ m.metrics.turns_failed
  pub interrupted : n.metrics.turns_interrupted ≡ m.metrics.turns_interrupted
  pub durations : n.metrics.turn_durations ≡ m.metrics.turn_durations
  pub gauge : n.metrics.turn_in_flight ≡ m.metrics.turn_in_flight

-- The free slot was taken by turn `id`.
pub record Begun (id : String) (m n : Manager) : Type 0 where
  pub free : m.current ≡ ""
  pub current : n.current ≡ id
  pub last_completed : n.last_completed ≡ m.last_completed
  pub finished : n.turns_completed ≡ m.turns_completed
  pub succeeded : n.turns_succeeded ≡ m.turns_succeeded
  pub complete : n.metrics.turns_complete ≡ m.metrics.turns_complete
  pub failed : n.metrics.turns_failed ≡ m.metrics.turns_failed
  pub interrupted : n.metrics.turns_interrupted ≡ m.metrics.turns_interrupted
  pub durations : n.metrics.turn_durations ≡ m.metrics.turn_durations
  pub gauge : n.metrics.turn_in_flight ≡ 1

abbrev pub completions : Ending → ℕ
completions (completes a b c d now) = 1
completions _ = 0

abbrev pub failures : Ending → ℕ
failures (fails msg now) = 1
failures _ = 0

abbrev pub interruptions : Ending → ℕ
interruptions (is_interrupted a b now) = 1
interruptions _ = 0

-- The turn in the slot ended, and the slot is free.
pub record Ended (e : Ending) (m n : Manager) : Type 0 where
  pub current : n.current ≡ ""
  pub last_completed : n.last_completed ≡ m.current
  pub finished : n.turns_completed ≡ m.turns_completed + 1
  pub succeeded : n.turns_succeeded ≡ m.turns_succeeded + completions e
  pub complete : n.metrics.turns_complete ≡ m.metrics.turns_complete + completions e
  pub failed : n.metrics.turns_failed ≡ m.metrics.turns_failed + failures e
  pub interrupted : n.metrics.turns_interrupted ≡ m.metrics.turns_interrupted + interruptions e
  pub durations : n.metrics.turn_durations ≡ m.metrics.turn_durations + 1
  pub gauge : n.metrics.turn_in_flight ≡ 0

-- What a section can do to the slot and the store.
pub data Move (m n : Manager) : Type 0 where
  quiet : SameSlot m n → n.store ≡ m.store → Move m n
  touched : (now : Time) → SameSlot m n → n.store ≡ (Store.touch m.current now m.store).0 → Move m n
  begins :
      (id text callback_url : String) (now : Time)
      → id ≢ ""
      → status id m.store ≡ none
      → Begun id m n
      → n.store ≡ Store.create id text callback_url now m.store
      → Move m n
  ends :
      (e : Ending)
      → (close e m.current m.store).1 ≡ none
      → Ended e m n
      → n.store ≡ (close e m.current m.store).0
      → Move m n
