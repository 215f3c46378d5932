-- ===== src/Transcript/Lines/Polls.antt =====
-- internal/transcript/tailer.go: `CaughtUpTo`, which polls on a goroutine of its own while `Follow`
-- reads, hands lines on and raises the position.
use mathlib.Core.List.{append_assoc, append-nil}
use mathlib.Core.Path.{subst}
use tatara_claude_code_wrapp.Common.{
  ℕ, ◌+◌, ◌≤◌, ◌≡◌, ◌∙◌, ◌++◌, sym, ap, true, List, [], ◌∷◌, ltb, length, length-append, All,
  All-append, arith, if_holds, if◌then◌else◌,
}
use tatara_claude_code_wrapp.Transcript.Lines.{
  Bytes, max_partial_bytes, same, replaced, Read, whole, at_end, fails, Follower, opened,
  hand_steps, is_nil, visited, seen_partial, seen_whole, seen, read, polls, caught_up_to,
}
use tatara_claude_code_wrapp.Transcript.Lines.Laws.{
  concat, concat-append, bytes_of, all_bytes, Continues, Keeps, read-Keeps, opened-Keeps,
}

-- The position is no further than what has been handed on, which is the beginning of `bytes`.
record Behind (bytes : Bytes) (s : Follower) : Type 0 where
  rest : Bytes
  all : concat s.handed ++ rest ≡ bytes
  position : s.read_pos ≤ length (concat s.handed)

Behind-more : (bytes more : Bytes) (s : Follower) → Behind bytes s → Behind (bytes ++ more) s
Behind-more bytes more s h = record {
  rest = h.rest ++ more;
  all = sym (append_assoc (concat s.handed) h.rest more) ∙ ap (λ x. x ++ more) h.all;
  position = h.position;
}

Keeps-Behind : (bytes : Bytes) (s : Follower) → Keeps bytes s → Behind bytes s
Keeps-Behind bytes s k = record {
  rest = s.partial;
  all = k.all;
  position = omega (arith, k.position);
}

handed_longer :
    (ls : List Bytes) (b : Bytes) → length (concat (ls ++ b ∷ [])) ≡ length (concat ls) + length b
handed_longer ls b =
    ap length (concat-append ls (b ∷ []))
    ∙ length-append (concat ls) (b ++ [])
    ∙ ap (λ n. length (concat ls) + n) (ap length (append-nil b))

visited-Behind :
    (bytes b : Bytes) (s : Follower)
    → Keeps bytes s
    → All (Behind (bytes ++ b)) (visited (hand_steps (s.partial ++ b)) s)
unfolding hand_steps
visited-Behind bytes b s k =
    let full = s.partial ++ b in
    let longer = handed_longer s.handed full in
    let joined : concat (s.handed ++ full ∷ []) ++ [] ≡ bytes ++ b =
      append-nil (concat (s.handed ++ full ∷ []))
      ∙ concat-append s.handed (full ∷ [])
      ∙ ap (λ x. concat s.handed ++ x) (append-nil full)
      ∙ sym (append_assoc (concat s.handed) s.partial b)
      ∙ ap (λ x. x ++ b) k.all in
    (
      Behind-more bytes b s (Keeps-Behind bytes s k),
      (
        record { rest = []; all = joined; position = omega (arith, k.position, longer) },
        (record { rest = []; all = joined; position = omega (arith, k.position, longer) }, tt),
      ),
    )

module _ (bytes b : Bytes) (s : Follower) (k : Keeps bytes s) where
  as_it_was : All (Behind (bytes ++ b)) (s ∷ [])
  as_it_was = (Behind-more bytes b s (Keeps-Behind bytes s k), tt)

  abbrev stepping : List Follower
  stepping = visited (hand_steps (s.partial ++ b)) s

  abbrev unless_short : List Follower
  unless_short = if ltb (length (s.partial ++ b)) max_partial_bytes then s ∷ [] else stepping

  unless_short-Behind : All (Behind (bytes ++ b)) unless_short
  unless_short-Behind =
      if_holds (All (Behind (bytes ++ b))) (ltb (length (s.partial ++ b)) max_partial_bytes)
        (s ∷ []) stepping (λ _. as_it_was) (λ _. visited-Behind bytes b s k)

  seen_partial-Behind : All (Behind (bytes ++ b)) (seen_partial b s)
  unfolding seen_partial
  seen_partial-Behind =
      if_holds (All (Behind (bytes ++ b))) (is_nil b) (s ∷ []) unless_short (λ _. as_it_was)
        (λ _. unless_short-Behind)

  seen_whole-Behind : All (Behind (bytes ++ b)) (seen_whole b s)
  unfolding seen_whole
  seen_whole-Behind =
      if_holds (All (Behind (bytes ++ b))) (is_nil b) (s ∷ []) stepping (λ _. as_it_was)
        (λ _. visited-Behind bytes b s k)

seen-Behind :
    (bytes : Bytes) (r : Read) (s : Follower)
    → Continues r
    → Keeps bytes s
    → All (Behind (bytes ++ bytes_of r)) (seen r s)
unfolding seen
seen-Behind bytes (whole b) s c k = seen_whole-Behind bytes b s k
seen-Behind bytes (at_end b same) s c k = seen_partial-Behind bytes b s k
seen-Behind bytes (at_end b (replaced ok)) s c k = absurd c
seen-Behind bytes (fails b ok) s c k = absurd c

All-more :
    (bytes more : Bytes) (ss : List Follower)
    → All (Behind bytes) ss
    → All (Behind (bytes ++ more)) ss
All-more bytes more [] h = tt
All-more bytes more (s ∷ ss) h = (Behind-more bytes more s h.0, All-more bytes more ss h.1)

polls-Behind :
    (bytes : Bytes) (rs : List Read) (s : Follower)
    → All Continues rs
    → Keeps bytes s
    → All (Behind (bytes ++ all_bytes rs)) (polls rs s)
unfolding polls
polls-Behind bytes [] s c k = (Behind-more bytes [] s (Keeps-Behind bytes s k), tt)
polls-Behind bytes (r ∷ rs) s c k =
    subst (λ x. All (Behind x) (polls (r ∷ rs) s)) (append_assoc bytes (bytes_of r) (all_bytes rs))
      (All-append (Behind ((bytes ++ bytes_of r) ++ all_bytes rs)) (seen r s) (polls rs (read r s))
        (All-more (bytes ++ bytes_of r) (all_bytes rs) (seen r s) (seen-Behind bytes r s c.0 k))
        (polls-Behind (bytes ++ bytes_of r) rs (read r s) c.1 (read-Keeps bytes r s c.0 k)))

-- A state that a poll finds.
pub data IsAmong (s : Follower) : List Follower → Type 0 where
  now : (ss : List Follower) → IsAmong s (s ∷ ss)
  later : (t : Follower) (ss : List Follower) → IsAmong s ss → IsAmong s (t ∷ ss)

found : (P : Follower → Type 0) (s : Follower) (ss : List Follower) → All P ss → IsAmong s ss → P s
found P s _ h (now ss) = h.0
found P s _ h (later t ss i) = found P s ss h.1 i

-- While the same file is read on, that is, it is not replaced and no read fails: if `CaughtUpTo`, at
-- whatever moment it polls, also between the processing of a line and the raising of the position,
-- answers true for a size of the file, then the processing of every byte below that size has returned.
pub caught_up_handed :
    (target : ℕ) (rs : List Read) (s : Follower)
    → All Continues rs
    → IsAmong s (polls rs opened)
    → caught_up_to target s ≡ true
    → (rest : Bytes) × (concat s.handed ++ rest ≡ all_bytes rs)
      × (target ≤ length (concat s.handed))
unfolding caught_up_to
caught_up_handed target rs s c i e =
    let b =
      found (Behind (all_bytes rs)) s (polls rs opened) (polls-Behind [] rs opened c opened-Keeps)
        i in
    (b.rest, b.all, ground (arith, e, b.position))
