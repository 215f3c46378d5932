-- ===== src/Transcript/Lines/Laws.antt =====
-- internal/transcript/tailer.go: no byte is lost, handed on twice, or split where it should not be.
use mathlib.Core.List.{append_assoc, append-nil}
use mathlib.Core.Path.{subst}
use tatara_claude_code_wrapp.Common.{
  ◌<◌, ◌≡◌, ◌∙◌, ◌++◌, sym, ap, refl, List, [], ◌∷◌, ltb, length, length-append, All, arith,
  Bool-cases, inl, inr,
}
use tatara_claude_code_wrapp.Transcript.Lines.{
  Bytes, max_partial_bytes, same, replaced, Read, whole, at_end, fails, Follower, opened, hand,
  hand_steps, keep_partial, keep_whole, read, follow,
}

abbrev pub concat : List Bytes → Bytes
concat [] = []
concat (l ∷ ls) = l ++ concat ls

pub concat-append : (ls ms : List Bytes) → concat (ls ++ ms) ≡ concat ls ++ concat ms
concat-append [] ms = refl
concat-append (l ∷ ls) ms =
    ap (λ x. l ++ x) (concat-append ls ms) ∙ sym (append_assoc l (concat ls) (concat ms))

-- The bytes of a read of the file that stays open.
abbrev pub bytes_of : Read → Bytes
bytes_of (whole b) = b
bytes_of (at_end b s) = b
bytes_of (fails b ok) = b

abbrev pub all_bytes : List Read → Bytes
all_bytes [] = []
all_bytes (r ∷ rs) = bytes_of r ++ all_bytes rs

-- A read after which the same file is read on.
abbrev pub Continues : Read → Type 0
Continues (whole b) = Unit
Continues (at_end b same) = Unit
Continues (at_end b (replaced ok)) = ⊥
Continues (fails b ok) = ⊥

-- What `s` has of the bytes `seen` that were read since the file was opened.
pub record Keeps (seen : Bytes) (s : Follower) : Type 0 where
  pub all : concat s.handed ++ s.partial ≡ seen
  pub position : s.read_pos ≡ length (concat s.handed)
  pub short : length s.partial < max_partial_bytes

ruleset joins = (concat-append, append_assoc, append-nil)

hand-Keeps :
    (seen b : Bytes) (s : Follower) → Keeps seen s → Keeps (seen ++ b) (hand (s.partial ++ b) s)
unfolding hand hand_steps
hand-Keeps seen b s k = record {
  all = simp joins (sym (append_assoc (concat s.handed) s.partial b) ∙ ap (λ x. x ++ b) k.all);
  position = omega (
    arith,
    k.position,
    ap length (concat-append s.handed ((s.partial ++ b) ∷ [])),
    length-append (concat s.handed) ((s.partial ++ b) ++ []),
    length-append (s.partial ++ b) [],
  );
  short = omega arith;
}

nil-Keeps : (seen : Bytes) (s : Follower) → Keeps seen s → Keeps (seen ++ []) s
nil-Keeps seen s k = subst (λ x. Keeps x s) (sym (append-nil seen)) k

keep_partial-Keeps :
    (seen b : Bytes) (s : Follower) → Keeps seen s → Keeps (seen ++ b) (keep_partial b s)
unfolding keep_partial
keep_partial-Keeps seen [] s k = nil-Keeps seen s k
keep_partial-Keeps seen (c ∷ b) s k =
    elim (Bool-cases (ltb (length (s.partial ++ c ∷ b)) max_partial_bytes)) [
      | inl fits ↦
          rw (fits, keep_partial)
            (record {
              all =
                  sym (append_assoc (concat s.handed) s.partial (c ∷ b))
                  ∙ ap (λ x. x ++ c ∷ b) k.all;
              position = k.position;
              short = ground (arith, fits);
            })
      | inr full ↦ rw (full, keep_partial) (hand-Keeps seen (c ∷ b) s k)
    ]

keep_whole-Keeps :
    (seen b : Bytes) (s : Follower) → Keeps seen s → Keeps (seen ++ b) (keep_whole b s)
unfolding keep_whole
keep_whole-Keeps seen [] s k = nil-Keeps seen s k
keep_whole-Keeps seen (c ∷ b) s k = hand-Keeps seen (c ∷ b) s k

pub read-Keeps :
    (seen : Bytes) (r : Read) (s : Follower)
    → Continues r
    → Keeps seen s
    → Keeps (seen ++ bytes_of r) (read r s)
unfolding read
read-Keeps seen (whole b) s c k = keep_whole-Keeps seen b s k
read-Keeps seen (at_end b same) s c k = keep_partial-Keeps seen b s k
read-Keeps seen (at_end b (replaced ok)) s c k = absurd c
read-Keeps seen (fails b ok) s c k = absurd c

follow-Keeps :
    (seen : Bytes) (rs : List Read) (s : Follower)
    → All Continues rs
    → Keeps seen s
    → Keeps (seen ++ all_bytes rs) (follow rs s)
unfolding follow
follow-Keeps seen [] s c k = nil-Keeps seen s k
follow-Keeps seen (r ∷ rs) s c k =
    subst (λ x. Keeps x (follow rs (read r s))) (append_assoc seen (bytes_of r) (all_bytes rs))
      (follow-Keeps (seen ++ bytes_of r) rs (read r s) c.1 (read-Keeps seen r s c.0 k))

pub opened-Keeps : Keeps [] opened
opened-Keeps = record { all = refl; position = refl; short = omega arith }

-- While the same file is read on, in whatever pieces, the lines handed on and the partial line are
-- together all the bytes that were read, in order and once each; the position is the length of what
-- was handed on, and the partial line stays below its limit.
pub follow_lem : (rs : List Read) → All Continues rs → Keeps (all_bytes rs) (follow rs opened)
follow_lem rs c = follow-Keeps [] rs opened c opened-Keeps
