-- ===== src/Turn/Closing.antt =====
-- internal/turn/store.go: the three operations that end a turn, taken together.
use tatara_claude_code_wrapp.Common.{
  ◌≡◌, ◌≢◌, ◌&&◌, Option, some, String, Time, if◌then◌else◌, str_eq,
}
use tatara_claude_code_wrapp.Turn.Records.{State, complete, failed}
use tatara_claude_code_wrapp.Turn.Store
use tatara_claude_code_wrapp.Turn.Store.{Store, Error}
use tatara_claude_code_wrapp.Turn.Laws.{
  status, is_known, error_of, status-complete, status-fail, status-interrupt,
}
use tatara_claude_code_wrapp.Turn.Frame.{
  error-complete, error-fail, error-interrupt, order-complete, order-fail, order-interrupt,
  get-complete_ne, get-fail_ne, get-interrupt_ne,
}

-- How a turn ends, with what is recorded of it.
pub data Ending : Type 0 where
  completes : String → String → String → String → Time → Ending
  fails : String → Time → Ending
  is_interrupted : String → String → Time → Ending

unfoldable pub close : Ending → String → Store → Store × Option Error
close (completes a b c d now) id s = Store.complete id a b c d now s
close (fails msg now) id s = Store.fail id msg now s
close (is_interrupted a b now) id s = Store.interrupt id a b now s

-- The state that it leaves a turn in.
abbrev pub closed : Ending → State
closed (completes a b c d now) = complete
closed (fails msg now) = failed
closed (is_interrupted a b now) = failed

pub status-close :
    (e : Ending) (j id : String) (s : Store)
    → status j (close e id s).0
      ≡ (if str_eq id j && is_known (status id s) then some (closed e) else status j s)
unfolding close
status-close (completes a b c d now) j id s = status-complete j id s a b c d now
status-close (fails msg now) j id s = status-fail j id s msg now
status-close (is_interrupted a b now) j id s = status-interrupt j id s a b now

pub error-close :
    (e : Ending) (id : String) (s : Store) → (close e id s).1 ≡ error_of (is_known (status id s))
unfolding close
error-close (completes a b c d now) id s = error-complete id s a b c d now
error-close (fails msg now) id s = error-fail id s msg now
error-close (is_interrupted a b now) id s = error-interrupt id s a b now

pub order-close : (e : Ending) (id : String) (s : Store) → (close e id s).0.order ≡ s.order
unfolding close
order-close (completes a b c d now) id s = order-complete id s a b c d now
order-close (fails msg now) id s = order-fail id s msg now
order-close (is_interrupted a b now) id s = order-interrupt id s a b now

pub get-close_ne :
    (e : Ending) (j id : String) (s : Store) → id ≢ j → Store.get j (close e id s).0 ≡ Store.get j s
unfolding close
get-close_ne (completes a b c d now) j id s h = get-complete_ne j id s a b c d now h
get-close_ne (fails msg now) j id s h = get-fail_ne j id s msg now h
get-close_ne (is_interrupted a b now) j id s h = get-interrupt_ne j id s a b now h
