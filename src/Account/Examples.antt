-- ===== src/Account/Examples.antt =====
-- The status line of a session in its first five hours, with no week to report, into an empty holder.
use tatara_claude_code_wrapp.Common.{ℕ, ◌≡◌, refl, false, none, some, arith, inl}
use tatara_claude_code_wrapp.Common.Int.{pos}
use tatara_claude_code_wrapp.Ratelimit.{Latest}
use tatara_claude_code_wrapp.Account.{
  RateLimits, Report, parse_payload, post_account_usage, account_usage,
}
use tatara_claude_code_wrapp.Account.Laws.{usage_arrives}

abbrev limits : RateLimits ℕ
limits = record {
  five_hour = some (record { used_percentage = 37; resets_at = pos 1764100800 });
  seven_day = none;
}

abbrev empty : Latest ℕ
empty = record {
  snap = record {
    observed_at = 0;
    five_hour_percent = 0;
    five_hour_reset = 0;
    weekly_percent = 0;
    weekly_reset = 0;
  };
  is_set = false;
}

usage_arrives_example :
    (r : Report ℕ) × (parse_payload 0 63899697000000000000 (some (some limits)) ≡ some r)
    × ((post_account_usage (some r) (some empty)).status ≡ 204)
    × (account_usage (post_account_usage (some r) (some empty)).limits
        ≡ some (record {
          observed_at = 63899697000000000000;
          five_hour_percent = 37;
          five_hour_reset_unix = pos 1764100800;
          weekly_percent = 0;
          weekly_reset_unix = pos 0;
        }))
usage_arrives_example =
    usage_arrives 0 63899697000000000000 some limits empty (λ r. refl) (omega arith) (inl (λ e. cc))
      (λ e. cc)
