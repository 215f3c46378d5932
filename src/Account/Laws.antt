-- ===== src/Account/Laws.antt =====
-- What the status line reports is what the operator learns.
use tatara_claude_code_wrapp.Common.{
  ℕ, zero, suc, ◌+◌, ◌*◌, ◌/◌, ◌≡◌, ◌≢◌, ◌⊎◌, ◌<◌, refl, true, false, Option, none, some, Time,
  is_zero, arith, Bool-cases, inl, inr,
}
use tatara_claude_code_wrapp.Common.Int.{ℤ, pos, negsuc}
use tatara_claude_code_wrapp.Ratelimit
use tatara_claude_code_wrapp.Ratelimit.{Latest}
use tatara_claude_code_wrapp.Account.{
  RateLimits, Report, percent_of, reset_of, report_at, parse_payload, unix_epoch, nanoseconds,
  unix_or_zero, unix, unix_unless_zero, post_account_usage, account_usage, snapshot_of,
}

-- A reset that is not in the future of 1970 is no reset.
abbrev pub known_reset : ℤ → ℤ
known_reset (pos sec) = pos sec
known_reset (negsuc n) = pos 0

seconds_of : (n : ℕ) → (n * nanoseconds) / nanoseconds ≡ n
seconds_of n = omega arith

unix_back : (sec : ℕ) → unix ((sec + unix_epoch) * nanoseconds) ≡ pos sec
unfolding unix
unix_back sec = rw (seconds_of (sec + unix_epoch)) (ground arith)

unix-unix_or_zero : (reset : ℤ) → unix_unless_zero (unix_or_zero reset) ≡ known_reset reset
unfolding unix_unless_zero unix_or_zero
unix-unix_or_zero (pos zero) = refl
unix-unix_or_zero (pos (suc sec)) = ground (arith, unix_back (suc sec))
unix-unix_or_zero (negsuc n) = refl

-- The holder has no snapshot, or an older one.
abbrev pub IsBefore : {P : Type 0} → Time → Latest P → Type 0
IsBefore now l = l.is_set ≡ true → l.snap.observed_at < now

abbrev pub HasWindow : {P : Type 0} → RateLimits P → Type 0
HasWindow l = (l.five_hour ≢ none) ⊎ (l.seven_day ≢ none)

module _ {P : Type 0} (zero_percent : P) (now : Time) where
  reported :
      (l : RateLimits P)
      → HasWindow l
      → parse_payload zero_percent now (some (some l)) ≡ some (report_at zero_percent now l)
  unfolding parse_payload
  reported l (inl five) = ground (arith, five)
  reported l (inr seven) = ground (arith, seven)

  kept :
      (r : Report P) (held : Latest P)
      → IsBefore r.observed_at held
      → Ratelimit.set (snapshot_of r) held ≡ record { snap = snapshot_of r; is_set = true }
  unfolding Ratelimit.set
  kept r held h = elim (Bool-cases held.is_set) [ inl e ↦ ground (arith, h e) | inr e ↦ rw e ]

  -- If JSON carries a report over unchanged, what the status line sends of a payload with at least one
  -- window is accepted and, if the holder has nothing as new, is what the next callback carries: the instant, both percentages, and both
  -- resets in seconds, where a missing window reads as zero and a negative reset as none.
  pub usage_arrives :
      (wire : Report P → Option (Report P)) (l : RateLimits P) (held : Latest P)
      → ((r : Report P) → wire r ≡ some r)
      → now ≢ 0
      → HasWindow l
      → IsBefore now held
      → (r : Report P) × (parse_payload zero_percent now (some (some l)) ≡ some r)
        × ((post_account_usage (wire r) (some held)).status ≡ 204)
        × (account_usage (post_account_usage (wire r) (some held)).limits
            ≡ some (record {
              observed_at = now;
              five_hour_percent = percent_of zero_percent l.five_hour;
              five_hour_reset_unix = known_reset (reset_of l.five_hour);
              weekly_percent = percent_of zero_percent l.seven_day;
              weekly_reset_unix = known_reset (reset_of l.seven_day);
            }))
  unfolding post_account_usage account_usage Ratelimit.get
  usage_arrives wire l held carries real has older =
      let r = report_at zero_percent now l in
      let five = unix-unix_or_zero (reset_of l.five_hour) in
      let seven = unix-unix_or_zero (reset_of l.seven_day) in
      let set = kept r held older in
      let nonzero : is_zero now ≡ false = ground arith in
      (r, reported l has, rw (carries r, nonzero), rw (carries r, nonzero, set, five, seven))
