-- ===== src/Turn/Laws.antt =====
-- internal/turn/store.go: what each operation of the store does to every record.
use tatara_claude_code_wrapp.Common.{
  ◌≡◌, ◌&&◌, Bool, true, false, Option, none, some, String, Time, lookup, lookup-insert,
  if◌then◌else◌, str_eq, eq_iff, arith, Option-cases, inl, inr,
}
use tatara_claude_code_wrapp.Turn.Records.{State, running, failed, Record}
use tatara_claude_code_wrapp.Turn.Store.{
  Store, Error, not_found, put, fresh, completed, interrupted, errored, create, touch, complete,
  interrupt, fail,
}

abbrev pub status_of : Option Record → Option State
status_of none = none
status_of (some r) = some r.state

-- The state of a turn, if the store has it.
abbrev pub status : String → Store → Option State
status id s = status_of (lookup id s.by_id)

abbrev pub is_known : Option State → Bool
is_known none = false
is_known (some x) = true

abbrev pub error_of : Bool → Option Error
error_of known = if known then none else some not_found

module _ (j id : String) (s : Store) where
  pub lookup-put :
      (r : Record)
      → lookup j (put id r s).by_id ≡ (if str_eq id j then some r else lookup j s.by_id)
  lookup-put r = lookup-insert j id r s.by_id

  status-put :
      (r : Record) → status j (put id r s) ≡ (if str_eq id j then some r.state else status j s)
  status-put r = ground (arith, lookup-put r)

  pub status-create :
      (text callback_url : String) (now : Time)
      → status j (create id text callback_url now s)
        ≡ (if str_eq id j then some running else status j s)
  unfolding create
  status-create text callback_url now =
      ground (arith, lookup-insert j id (fresh id text callback_url now) s.by_id)

  pub status-complete :
      (final_text result_json usage stop_reason : String) (now : Time)
      → status j (complete id final_text result_json usage stop_reason now s).0
        ≡ (if str_eq id j && is_known (status id s) then some State.complete else status j s)
  unfolding complete
  status-complete a b c d now = elim (Option-cases (lookup id s.by_id)) [
    | inl e ↦ rw (e, complete) (ground arith)
    | inr (r, e) ↦ rw (e, complete) (ground (arith, status-put (completed a b c d now r)))
  ]

  pub status-interrupt :
      (final_text usage : String) (now : Time)
      → status j (interrupt id final_text usage now s).0
        ≡ (if str_eq id j && is_known (status id s) then some failed else status j s)
  unfolding interrupt
  status-interrupt a b now = elim (Option-cases (lookup id s.by_id)) [
    | inl e ↦ rw (e, interrupt) (ground arith)
    | inr (r, e) ↦ rw (e, interrupt) (ground (arith, status-put (interrupted a b now r)))
  ]

  pub status-fail :
      (msg : String) (now : Time)
      → status j (fail id msg now s).0
        ≡ (if str_eq id j && is_known (status id s) then some failed else status j s)
  unfolding fail
  status-fail a now = elim (Option-cases (lookup id s.by_id)) [
    | inl e ↦ rw (e, fail) (ground arith)
    | inr (r, e) ↦ rw (e, fail) (ground (arith, status-put (errored a now r)))
  ]

  pub status-touch : (now : Time) → status j (touch id now s).0 ≡ status j s
  unfolding touch
  status-touch now = elim (Option-cases (lookup id s.by_id)) [
    | inl e ↦ rw (e, touch)
    | inr (r, e) ↦
        rw (e, touch)
          (ground (arith, e, eq_iff id j, status-put (record r { last_activity_at = now })))
  ]
