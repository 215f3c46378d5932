-- ===== src/Turn/Frame.antt =====
-- internal/turn/store.go: what each operation of the store leaves alone, its error and the order.
use tatara_claude_code_wrapp.Common.{
  ◌≡◌, ◌≢◌, true, false, some, String, Time, lookup, lookup-insert, eq_iff, arith, Option-cases,
  inl, inr,
}
use tatara_claude_code_wrapp.Turn.Records.{running, Record}
use tatara_claude_code_wrapp.Turn.Store.{
  Store, put, fresh, completed, interrupted, errored, get, create, touch, complete, interrupt, fail,
}
use tatara_claude_code_wrapp.Turn.Laws.{status, is_known, error_of, lookup-put}

module _ (j id : String) (s : Store) where
  pub get-create_ne :
      (text callback_url : String) (now : Time)
      → id ≢ j
      → get j (create id text callback_url now s) ≡ get j s
  unfolding create get
  get-create_ne text callback_url now h =
      ground (arith, eq_iff id j, lookup-insert j id (fresh id text callback_url now) s.by_id)

  pub get-complete_ne :
      (final_text result_json usage stop_reason : String) (now : Time)
      → id ≢ j
      → get j (complete id final_text result_json usage stop_reason now s).0 ≡ get j s
  unfolding complete get
  get-complete_ne a b c d now h = elim (Option-cases (lookup id s.by_id)) [
    | inl e ↦ rw (e, complete)
    | inr (r, e) ↦
        rw (e, complete) (ground (arith, eq_iff id j, lookup-put j id s (completed a b c d now r)))
  ]

  pub get-interrupt_ne :
      (final_text usage : String) (now : Time)
      → id ≢ j
      → get j (interrupt id final_text usage now s).0 ≡ get j s
  unfolding interrupt get
  get-interrupt_ne a b now h = elim (Option-cases (lookup id s.by_id)) [
    | inl e ↦ rw (e, interrupt)
    | inr (r, e) ↦
        rw (e, interrupt) (ground (arith, eq_iff id j, lookup-put j id s (interrupted a b now r)))
  ]

  pub get-fail_ne : (msg : String) (now : Time) → id ≢ j → get j (fail id msg now s).0 ≡ get j s
  unfolding fail get
  get-fail_ne a now h = elim (Option-cases (lookup id s.by_id)) [
    | inl e ↦ rw (e, fail)
    | inr (r, e) ↦ rw (e, fail) (ground (arith, eq_iff id j, lookup-put j id s (errored a now r)))
  ]

  pub get-touch_ne : (now : Time) → id ≢ j → get j (touch id now s).0 ≡ get j s
  unfolding touch get
  get-touch_ne now h = elim (Option-cases (lookup id s.by_id)) [
    | inl e ↦ rw (e, touch)
    | inr (r, e) ↦
        rw (e, touch)
          (ground (arith, eq_iff id j, lookup-put j id s (record r { last_activity_at = now })))
  ]

module _ (id : String) (s : Store) where
  pub error-complete :
      (final_text result_json usage stop_reason : String) (now : Time)
      → (complete id final_text result_json usage stop_reason now s).1
        ≡ error_of (is_known (status id s))
  unfolding complete
  error-complete a b c d now = ground arith

  pub order-complete :
      (final_text result_json usage stop_reason : String) (now : Time)
      → (complete id final_text result_json usage stop_reason now s).0.order ≡ s.order
  unfolding complete
  order-complete a b c d now = ground arith

  pub error-interrupt :
      (final_text usage : String) (now : Time)
      → (interrupt id final_text usage now s).1 ≡ error_of (is_known (status id s))
  unfolding interrupt
  error-interrupt a b now = ground arith

  pub order-interrupt :
      (final_text usage : String) (now : Time)
      → (interrupt id final_text usage now s).0.order ≡ s.order
  unfolding interrupt
  order-interrupt a b now = ground arith

  pub error-fail :
      (msg : String) (now : Time) → (fail id msg now s).1 ≡ error_of (is_known (status id s))
  unfolding fail
  error-fail a now = ground arith

  pub order-fail : (msg : String) (now : Time) → (fail id msg now s).0.order ≡ s.order
  unfolding fail
  order-fail a now = ground arith

  pub order-touch : (now : Time) → (touch id now s).0.order ≡ s.order
  unfolding touch
  order-touch now = ground arith

  -- A turn that is not running is left as it is, the whole store with it.
  pub touch_terminal : (now : Time) → status id s ≢ some running → touch id now s ≡ (s, false)
  unfolding touch
  touch_terminal now h = ground arith

  pub touch_running :
      (now : Time) (r : Record)
      → get id s ≡ some r
      → r.state ≡ running
      → touch id now s ≡ (put id (record r { last_activity_at = now }) s, true)
  unfolding touch get
  touch_running now r e h = ground arith
