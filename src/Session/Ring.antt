-- ===== src/Session/Ring.antt =====
-- internal/session/ring.go: the newest output of the terminal.
pub mod Laws
use tatara_claude_code_wrapp.Common.{
  ℕ, ◌+◌, ◌-◌, ◌*◌, ◌&&◌, ◌||◌, not, ◌==◌, ◌++◌, Bool, List, [], ◌∷◌, if◌then◌else◌, ltb, length,
  drop,
}

abbrev pub Bytes : Type 0
Bytes = List ℕ

abbrev pub ring_cap : ℕ
ring_cap = 64 * 1024

-- `total` counts the bytes that were ever written.
pub record RingBuffer : Type 0 where
  pub buf : Bytes
  pub total : ℕ

abbrev pub new_ring : RingBuffer
new_ring = record { buf = []; total = 0 }

abbrev pub newest : ℕ → Bytes → Bytes
newest n b = if ltb n (length b) then drop (length b - n) b else b

unfoldable pub write : Bytes → RingBuffer → RingBuffer
write p r = record { buf = newest ring_cap (r.buf ++ p); total = r.total + length p }

unfoldable pub reset : RingBuffer → RingBuffer
reset r = record r { buf = [] }

abbrev pub written : RingBuffer → ℕ
written r = r.total
