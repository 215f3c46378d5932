-- ===== src/Session/Ring/Laws.antt =====
-- internal/session/ring.go: the buffer is the end of what was written.
use tatara_claude_code_wrapp.Common.{
  ℕ, zero, suc, ◌+◌, ◌-◌, ◌≤◌, ◌≡◌, ◌∙◌, ap, sym, refl, arith, ◌++◌, List, [], ◌∷◌, length, drop,
  length-append, length-drop, ltb, if_holds,
}
use tatara_claude_code_wrapp.Session.Ring.{
  Bytes, ring_cap, RingBuffer, new_ring, newest, write, reset, written,
}

-- The last `n` bytes, counted from the end.
abbrev pub last : ℕ → Bytes → Bytes
last n b = drop (length b - n) b

newest-last : (n : ℕ) (b : Bytes) → newest n b ≡ last n b
newest-last n b =
    if_holds (λ x. x ≡ last n b) (ltb n (length b)) _ b (λ e. refl)
      (λ e. ap (λ k. drop k b) {x = 0} {y = length b - n} (ground (arith, e)))

drop-append : (k : ℕ) (xs ys : Bytes) → k ≤ length xs → drop k (xs ++ ys) ≡ drop k xs ++ ys
drop-append zero xs ys h = refl
drop-append (suc k) [] ys h = absurd (omega (arith, h))
drop-append (suc k) (x ∷ xs) ys h = drop-append k xs ys (omega (arith, h))

drop_nil : (n : ℕ) → drop {A = ℕ} n [] ≡ []
drop_nil zero = refl
drop_nil (suc n) = refl

drop-drop : (j k : ℕ) (xs : Bytes) → drop j (drop k xs) ≡ drop (j + k) xs
drop-drop j zero xs = ap (λ n. drop n xs) {x = j} {y = j + 0} (omega arith)
drop-drop zero (suc k) xs = ap (λ n. drop n xs) {x = suc k} {y = 0 + suc k} (omega arith)
drop-drop (suc j) (suc k) [] = sym (drop_nil (suc j + suc k))
drop-drop (suc j) (suc k) (x ∷ xs) =
    drop-drop (suc j) k xs
    ∙ ap (λ n. drop n (x ∷ xs)) {x = suc (suc j + k)} {y = suc j + suc k} (omega arith)

-- What was cut off before does not matter.
last-append : (n : ℕ) (xs ys : Bytes) → last n (last n xs ++ ys) ≡ last n (xs ++ ys)
last-append n xs ys =
    let j = length xs - n in
    let k = length (drop j xs ++ ys) - n in
    ap (drop k) (sym (drop-append j xs ys (omega arith)))
    ∙ drop-drop k j (xs ++ ys)
    ∙ ap (λ m. drop m (xs ++ ys)) {x = k + j} {y = length (xs ++ ys) - n}
        (omega (arith, length-append xs ys, length-append (drop j xs) ys, length-drop j xs))

pub data Op : Type 0 where
  write_op : Bytes → Op
  reset_op : Op

unfoldable pub run : List Op → RingBuffer → RingBuffer
unfolding write reset
run [] r = r
run (write_op p ∷ os) r = run os (write p r)
run (reset_op ∷ os) r = run os (reset r)

-- What was written behind the last reset, after `seen`.
abbrev pub since_reset : Bytes → List Op → Bytes
since_reset seen [] = seen
since_reset seen (write_op p ∷ os) = since_reset (seen ++ p) os
since_reset seen (reset_op ∷ os) = since_reset [] os

abbrev pub bytes_written : List Op → ℕ
bytes_written [] = 0
bytes_written (write_op p ∷ os) = length p + bytes_written os
bytes_written (reset_op ∷ os) = bytes_written os

write_last :
    (seen p : Bytes) (r : RingBuffer)
    → r.buf ≡ last ring_cap seen
    → (write p r).buf ≡ last ring_cap (seen ++ p)
unfolding write
write_last seen p r h =
    newest-last ring_cap (r.buf ++ p)
    ∙ ap (λ b. last ring_cap (b ++ p)) h
    ∙ last-append ring_cap seen p

run_last :
    (os : List Op) (seen : Bytes) (r : RingBuffer)
    → r.buf ≡ last ring_cap seen
    → (run os r).buf ≡ last ring_cap (since_reset seen os)
unfolding run reset
run_last [] seen r h = h
run_last (write_op p ∷ os) seen r h = run_last os (seen ++ p) (write p r) (write_last seen p r h)
run_last (reset_op ∷ os) seen r h = run_last os [] (reset r) refl

run_total : (os : List Op) (r : RingBuffer) → written (run os r) ≡ written r + bytes_written os
unfolding run write reset
run_total [] r = omega arith
run_total (write_op p ∷ os) r = omega (arith, run_total os (write p r))
run_total (reset_op ∷ os) r = run_total os (reset r)

-- Over any writes and resets, the buffer is the last 64 KiB of what was written since the last reset,
-- and the count is that of all the bytes ever written, resets or not.
pub run-last :
    (os : List Op)
    → ((run os new_ring).buf ≡ last ring_cap (since_reset [] os))
      × (written (run os new_ring) ≡ bytes_written os)
run-last os = (run_last os [] new_ring refl, omega (arith, run_total os new_ring))
