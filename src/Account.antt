-- ===== src/Account.antt =====
-- The account's usage, from the status line to the callback: cmd/cc-statusline/main.go,
-- internal/httpapi/accountusage.go, and `accountUsage` of cmd/wrapper/app.go. A percentage is any type
-- `P` with a zero; the decoders are parameters.
pub mod Laws
mod Examples
use tatara_claude_code_wrapp.Common.{
  ℕ, ◌+◌, ◌*◌, ◌/◌, Bool, true, false, Option, none, some, Time, zero_time, is_zero, if◌then◌else◌,
  ltb,
}
use tatara_claude_code_wrapp.Common.Int.{ℤ, pos, negsuc, sub_ℕ}
use tatara_claude_code_wrapp.Ratelimit
use tatara_claude_code_wrapp.Ratelimit.{Latest}
use tatara_claude_code_wrapp.Wrapper.Payload.{AccountUsagePayload}

pub record Window (P : Type 0) : Type 0 where
  pub used_percentage : P
  pub resets_at : ℤ

pub record RateLimits (P : Type 0) : Type 0 where
  pub five_hour : Option (Window P)
  pub seven_day : Option (Window P)

-- Also the body that the wrapper decodes.
pub record Report (P : Type 0) : Type 0 where
  pub observed_at : Time
  pub five_hour_percent : P
  pub five_hour_reset_unix : ℤ
  pub weekly_percent : P
  pub weekly_reset_unix : ℤ

module _ {P : Type 0} (zero_percent : P) where
  abbrev pub percent_of : Option (Window P) → P
  percent_of none = zero_percent
  percent_of (some w) = w.used_percentage

abbrev pub reset_of : {P : Type 0} → Option (Window P) → ℤ
reset_of none = pos 0
reset_of (some w) = w.resets_at

module _ {P : Type 0} where
  abbrev pub report_at : P → Time → RateLimits P → Report P
  report_at zero_percent now l = record {
    observed_at = now;
    five_hour_percent = percent_of zero_percent l.five_hour;
    five_hour_reset_unix = reset_of l.five_hour;
    weekly_percent = percent_of zero_percent l.seven_day;
    weekly_reset_unix = reset_of l.seven_day;
  }

  abbrev pub is_nil_window : Option (Window P) → Bool
  is_nil_window none = true
  is_nil_window (some w) = false

  abbrev pub report_windows : P → Time → RateLimits P → Option (Report P)
  report_windows zero_percent now l =
      if is_nil_window l.five_hour
      then if is_nil_window l.seven_day then none else some (report_at zero_percent now l)
      else some (report_at zero_percent now l)

  -- The argument is what the payload decodes to, if it does, and its `rate_limits`, if it has any.
  unfoldable pub parse_payload : P → Time → Option (Option (RateLimits P)) → Option (Report P)
  parse_payload zero_percent now none = none
  parse_payload zero_percent now (some none) = none
  parse_payload zero_percent now (some (some l)) = report_windows zero_percent now l

-- The seconds from the zero time to that of Unix.
abbrev pub unix_epoch : ℕ
unix_epoch = 62135596800

abbrev pub nanoseconds : ℕ
nanoseconds = 1000000000

unfoldable pub unix_or_zero : ℤ → Time
unix_or_zero (pos sec) = if ltb 0 sec then (sec + unix_epoch) * nanoseconds else zero_time
unix_or_zero (negsuc n) = zero_time

-- `t.Unix()`.
unfoldable pub unix : Time → ℤ
unix t = sub_ℕ (t / nanoseconds) unix_epoch

unfoldable pub unix_unless_zero : Time → ℤ
unfolding unix
unix_unless_zero t = if is_zero t then pos 0 else unix t

-- The label of `StatuslineReports`.
pub data Result : Type 0 where
  bad_payload ok : Result

pub record Answer (P : Type 0) : Type 0 where
  pub status : ℕ
  pub result : Result
  pub limits : Option (Latest P)

module _ {P : Type 0} where
  abbrev pub snapshot_of : Report P → Ratelimit.Snapshot P
  snapshot_of r = record {
    observed_at = r.observed_at;
    five_hour_percent = r.five_hour_percent;
    five_hour_reset = unix_or_zero r.five_hour_reset_unix;
    weekly_percent = r.weekly_percent;
    weekly_reset = unix_or_zero r.weekly_reset_unix;
  }

  abbrev pub set_limits : Report P → Option (Latest P) → Option (Latest P)
  set_limits r none = none
  set_limits r (some l) = some (Ratelimit.set (snapshot_of r) l)

  -- The handler; `limits` is the holder, if there is one.
  unfoldable pub post_account_usage : Option (Report P) → Option (Latest P) → Answer P
  unfolding unix_or_zero Ratelimit.set
  post_account_usage none limits = record { status = 400; result = bad_payload; limits = limits }
  post_account_usage (some r) limits =
      if is_zero r.observed_at
      then record { status = 400; result = bad_payload; limits = limits }
      else record { status = 204; result = ok; limits = set_limits r limits }

  abbrev pub payload_of : Ratelimit.Snapshot P → AccountUsagePayload P
  payload_of s = record {
    observed_at = s.observed_at;
    five_hour_percent = s.five_hour_percent;
    five_hour_reset_unix = unix_unless_zero s.five_hour_reset;
    weekly_percent = s.weekly_percent;
    weekly_reset_unix = unix_unless_zero s.weekly_reset;
  }

  abbrev pub payload_if_set : Ratelimit.Snapshot P × Bool → Option (AccountUsagePayload P)
  payload_if_set (s, is_set) = if is_set then some (payload_of s) else none

  unfoldable pub account_usage : Option (Latest P) → Option (AccountUsagePayload P)
  unfolding unix_unless_zero Ratelimit.get
  account_usage none = none
  account_usage (some l) = payload_if_set (Ratelimit.get l)
