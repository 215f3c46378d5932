-- ===== src/Common/Int.antt =====
-- Signed numbers, for a `time.Duration` that can be negative.
use Prim.Native.Nat.{ℕ, ◌-◌}
use tatara_claude_code_wrapp.Common.Tests.{leb, if◌then◌else◌}

-- `negsuc n` is -(n + 1).
pub data ℤ : Type 0 where
  pos : ℕ → ℤ
  negsuc : ℕ → ℤ

-- a - b, as a signed number: `t.Sub(u)`.
abbrev pub sub_ℕ : ℕ → ℕ → ℤ
sub_ℕ a b = if leb b a then pos (a - b) else negsuc (b - a - 1)
