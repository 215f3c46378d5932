-- ===== src/Session/Accounting.antt =====
-- internal/session: what the accounting of turns means to the operator that reads it.
use mathlib.Core.Path.{subst}
use tatara_claude_code_wrapp.Common.{
  ℕ, ◌+◌, ◌≡◌, ◌≢◌, ◌↔◌, ◌∙◌, ap, none, some, String, Time, arith, length,
}
use tatara_claude_code_wrapp.Session.State.{Manager, Config}
use tatara_claude_code_wrapp.Session.Activity.{snapshot}
use tatara_claude_code_wrapp.Session.Step.{Reach, here, next}
use tatara_claude_code_wrapp.Session.Move.{Move, quiet, touched, begins, ends}
use tatara_claude_code_wrapp.Session.Move.Sections.{perform-Move}
use tatara_claude_code_wrapp.Session.Ledger.{
  in_slot, IsBalanced, IsLedger, start_of, reached-IsLedger, Reach-IsLedger,
}
use tatara_claude_code_wrapp.Turn.Records.{running, Record}
use tatara_claude_code_wrapp.Turn.Store
use tatara_claude_code_wrapp.Turn.Laws.{status}
use tatara_claude_code_wrapp.Turn.Frame.{get-create_ne, get-touch_ne}
use tatara_claude_code_wrapp.Turn.Closing.{get-close_ne}

-- At every moment of every interleaving the turns created are those that the metrics count as
-- complete, failed or interrupted, and the one in the slot if it is taken.
pub every_turn_counted :
    (cfg : Config) (t : Time) (m : Manager)
    → Reach (start_of cfg t) m
    → length m.store.order
      ≡ m.metrics.turns_complete + m.metrics.turns_failed + m.metrics.turns_interrupted + in_slot m
every_turn_counted cfg t m r = let l = reached-IsLedger cfg t r in omega (arith, l.balanced)

-- The session's snapshot agrees: its finished turns and the one in flight are those created, and
-- its completed turns are those that the metrics count as complete.
snapshot_counts :
    (cfg : Config) (t : Time) (m : Manager) (outstanding : ℕ)
    → Reach (start_of cfg t) m
    → let s = snapshot outstanding m in
      (length m.store.order ≡ s.turns_finished + in_slot m)
      × (s.turns_completed ≡ m.metrics.turns_complete)
      × (m.metrics.turn_in_flight ≡ in_slot m)
unfolding snapshot
snapshot_counts cfg t m outstanding r =
    let l = reached-IsLedger cfg t r in
    (omega (arith, l.balanced), l.balanced.succeeded, l.balanced.gauge)

-- At every moment of every interleaving a turn is recorded as running exactly if it is the one in
-- the slot.
pub runs_iff_in_slot :
    (cfg : Config) (t : Time) (m : Manager) (id : String)
    → Reach (start_of cfg t) m
    → (status id m.store ≡ some running) ↔ ((id ≡ m.current) × (m.current ≢ ""))
runs_iff_in_slot cfg t m id r =
    let l = reached-IsLedger cfg t r in
    (
      λ e. ground (arith, l.only id, l.balanced.unnamed),
      λ (h : (id ≡ m.current) × (m.current ≢ "")). ground (arith, h.0, h.1, l.balanced.slot),
    )

has_status :
    (id : String) (r : Record) (s : Store.Store) → Store.get id s ≡ some r → status id s ≡ none → ⊥
unfolding Store.get
has_status id r s g e = ground (arith, g, e)

module _ (id : String) (r : Record) (ended : r.state ≢ running) where
  elsewhere : {m : Manager} → IsBalanced m → Store.get id m.store ≡ some r → m.current ≢ id
  unfolding Store.get
  elsewhere b g same = ground (arith, same, g, b.slot, b.unnamed)

  Move-get :
      {m n : Manager}
      → Move m n
      → IsBalanced m
      → Store.get id m.store ≡ some r
      → Store.get id n.store ≡ some r
  Move-get (quiet s e) b g = ap (Store.get id) e ∙ g
  Move-get {m} (touched now s e) b g =
      ap (Store.get id) e ∙ get-touch_ne id m.current m.store now (elsewhere b g) ∙ g
  Move-get {m} (begins new_id text u now h f s e) b g =
      ap (Store.get id) e ∙ get-create_ne id new_id m.store text u now (not_new f g) ∙ g
    where
      not_new : status new_id m.store ≡ none → Store.get id m.store ≡ some r → new_id ≢ id
      not_new free found same =
          has_status id r m.store found (subst (λ x. status x m.store ≡ none) same free)
  Move-get {m} (ends o stored s e) b g =
      ap (Store.get id) e ∙ get-close_ne o id m.current m.store (elsewhere b g) ∙ g

  Reach-get :
      {m n : Manager}
      → Reach m n
      → IsLedger m
      → Store.get id m.store ≡ some r
      → Store.get id n.store ≡ some r
  Reach-get here l g = g
  Reach-get (next {n} w s a) l g =
      Move-get (perform-Move s n a) (Reach-IsLedger w l).balanced (Reach-get w l g)

-- Once a turn is complete or failed its record never changes again, whatever runs concurrently: no
-- late hook, transcript line, interrupt, crash or write error reaches it.
pub ended_turn_is_final :
    (cfg : Config) (t : Time) (m n : Manager) (id : String) (r : Record)
    → Reach (start_of cfg t) m
    → Reach m n
    → Store.get id m.store ≡ some r
    → r.state ≢ running
    → Store.get id n.store ≡ some r
ended_turn_is_final cfg t m n id r before after g ended =
    Reach-get id r ended after (reached-IsLedger cfg t before) g
