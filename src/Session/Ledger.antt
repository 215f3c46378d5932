-- ===== src/Session/Ledger.antt =====
-- internal/session: every turn is accounted for at every moment of every interleaving.
use tatara_claude_code_wrapp.Common.{
  ℕ, ◌+◌, ◌≡◌, ◌≢◌, ◌⊎◌, refl, [], ◌∷◌, none, some, String, Time, arith, is_empty, if◌then◌else◌,
  eq_iff, length, length-append, lookup,
}
use tatara_claude_code_wrapp.Session.State.{Manager, Config, new}
use tatara_claude_code_wrapp.Session.Step.{Reach, here, next}
use tatara_claude_code_wrapp.Session.Move.{
  Move, quiet, touched, begins, ends, completions, failures, interruptions,
}
use tatara_claude_code_wrapp.Session.Move.Sections.{perform-Move}
use tatara_claude_code_wrapp.Turn.Records.{running}
use tatara_claude_code_wrapp.Turn.Store
use tatara_claude_code_wrapp.Turn.Store.{new_store}
use tatara_claude_code_wrapp.Turn.Laws.{status, status-create, status-touch}
use tatara_claude_code_wrapp.Turn.Frame.{order-touch}
use tatara_claude_code_wrapp.Turn.Closing.{
  Ending, completes, fails, is_interrupted, close, closed, status-close, error-close, order-close,
}

abbrev pub in_slot : Manager → ℕ
in_slot m = if is_empty m.current then 0 else 1

-- The counters agree with one another, and with the store and the slot.
pub record IsBalanced (m : Manager) : Type 0 where
  pub finished :
      m.turns_completed
      ≡ m.metrics.turns_complete + m.metrics.turns_failed + m.metrics.turns_interrupted
  pub succeeded : m.turns_succeeded ≡ m.metrics.turns_complete
  pub observed : m.metrics.turn_durations ≡ m.turns_completed
  pub gauge : m.metrics.turn_in_flight ≡ in_slot m
  pub created : length m.store.order ≡ m.turns_completed + m.metrics.turn_in_flight
  pub unnamed : status "" m.store ≡ none
  pub slot : (m.current ≡ "") ⊎ (status m.current m.store ≡ some running)

-- A turn that is running is the one in the slot.
abbrev pub OnlySlotRuns : Manager → Type 0
OnlySlotRuns m = (id : String) → status id m.store ≡ some running → id ≡ m.current

order-create :
    (id text u : String) (now : Time) (s : Store.Store)
    → length (Store.create id text u now s).order ≡ length s.order + 1
unfolding Store.create
order-create id text u now s = omega (arith, length-append {0} s.order (id ∷ []))

one_count : (o : Ending) → completions o + failures o + interruptions o ≡ 1
one_count (completes a b c d now) = refl
one_count (fails msg now) = refl
one_count (is_interrupted a b now) = refl

closed_ne : (o : Ending) → closed o ≢ running
closed_ne (completes a b c d now) = λ e. cc
closed_ne (fails msg now) = λ e. cc
closed_ne (is_interrupted a b now) = λ e. cc

slot_held :
    (o : Ending) (m : Manager)
    → (close o m.current m.store).1 ≡ none
    → IsBalanced m
    → m.current ≢ ""
slot_held o m stored b idle = ground (arith, error-close o m.current m.store, b.unnamed)

Move-IsBalanced : {m n : Manager} → Move m n → IsBalanced m → IsBalanced n
Move-IsBalanced (quiet s e) b = ground arith
Move-IsBalanced {m} (touched now s e) b = ground (
  arith,
  order-touch m.current m.store now,
  status-touch "" m.current m.store now,
  status-touch m.current m.current m.store now,
)
Move-IsBalanced {m} (begins id text u now h f s e) b = ground (
  arith,
  order-create id text u now m.store,
  status-create "" id m.store text u now,
  status-create id id m.store text u now,
  eq_iff id "",
  eq_iff id id,
  eq_iff m.current "",
)
Move-IsBalanced {m} {n} (ends o stored s e) b = ground (
  arith,
  slot_held o m stored b,
  order-close o m.current m.store,
  one_count o,
  status-close o "" m.current m.store,
  eq_iff m.current "",
  eq_iff n.current "",
)

Move-OnlySlotRuns : {m n : Manager} → Move m n → IsBalanced m → OnlySlotRuns m → OnlySlotRuns n
Move-OnlySlotRuns (quiet s e) b only id r = ground (arith, only id)
Move-OnlySlotRuns {m} (touched now s e) b only id r =
    ground (arith, only id, status-touch id m.current m.store now)
Move-OnlySlotRuns {m} (begins new_id text u now h f s e) b only id r =
    ground (arith, only id, status-create id new_id m.store text u now, eq_iff new_id id, b.unnamed)
Move-OnlySlotRuns {m} (ends o stored s e) b only id r = ground (
  arith,
  only id,
  status-close o id m.current m.store,
  eq_iff m.current id,
  error-close o m.current m.store,
  closed_ne o,
)

pub record IsLedger (m : Manager) : Type 0 where
  pub balanced : IsBalanced m
  pub only : OnlySlotRuns m

abbrev pub start_of : Config → Time → Manager
start_of cfg t = new cfg new_store t

new-IsLedger : (cfg : Config) (t : Time) → IsLedger (start_of cfg t)
unfolding new lookup
new-IsLedger cfg t = record { balanced = ground arith; only = λ id r. cc }

pub Reach-IsLedger : {m n : Manager} → Reach m n → IsLedger m → IsLedger n
Reach-IsLedger here l = l
Reach-IsLedger (next {n} r s a) l =
    let before = Reach-IsLedger r l in
    let mv = perform-Move s n a in
    record {
      balanced = Move-IsBalanced mv before.balanced;
      only = Move-OnlySlotRuns mv before.balanced before.only;
    }

pub reached-IsLedger :
    (cfg : Config) (t : Time) {m : Manager} → Reach (start_of cfg t) m → IsLedger m
reached-IsLedger cfg t r = Reach-IsLedger r (new-IsLedger cfg t)
