-- ===== src/Transcript/Lines/Split.antt =====
-- internal/transcript/tailer.go: the lines do not depend on the pieces in which a file was read.
use mathlib.Core.List.{append_assoc}
use mathlib.Core.Path.{subst}
use tatara_claude_code_wrapp.Common.{
  ℕ, ◌<◌, ◌≡◌, ◌∙◌, ◌++◌, sym, ap, refl, false, List, [], ◌∷◌, if◌then◌else◌, lt→ltb, ◌==◌, length,
  length-append, All, All-append, arith,
}
use tatara_claude_code_wrapp.Transcript.Lines.{
  Bytes, max_partial_bytes, same, replaced, Read, whole, at_end, fails, Follower, opened, hand,
  keep_partial, keep_whole, read, follow,
}
use tatara_claude_code_wrapp.Transcript.Lines.Laws.{
  concat, all_bytes, bytes_of, Continues, Keeps, follow_lem, read-Keeps, opened-Keeps,
}

abbrev pub newline : ℕ
newline = 10

abbrev pub NoNewline : Bytes → Type 0
NoNewline b = All (λ c. (c == newline) ≡ false) b

-- A text that ends in its one newline.
abbrev pub IsLine : Bytes → Type 0
IsLine l = (b : Bytes) × (l ≡ b ++ newline ∷ []) × NoNewline b

-- What `ReadBytes` gives: a line without an error, and no newline at the end of the file.
abbrev pub IsRead : Read → Type 0
IsRead (whole b) = IsLine b
IsRead (at_end b s) = NoNewline b
IsRead (fails b ok) = NoNewline b

abbrev cons_first : ℕ → List Bytes × Bytes → List Bytes × Bytes
cons_first c ([], rest) = ([], c ∷ rest)
cons_first c (l ∷ ls, rest) = ((c ∷ l) ∷ ls, rest)

-- The lines of a text, each with its newline, and what stands behind the last of them.
pub split_lines : Bytes → List Bytes × Bytes
split_lines [] = ([], [])
split_lines (c ∷ cs) =
    let (ls, rest) = split_lines cs in
    if c == newline then ((c ∷ []) ∷ ls, rest) else cons_first c (ls, rest)

split_rest : (b : Bytes) → NoNewline b → split_lines b ≡ ([], b)
unfolding split_lines
split_rest [] n = refl
split_rest (c ∷ b) (h, n) = rw (h, split_rest b n)

split_line :
    (b cs : Bytes)
    → NoNewline b
    → split_lines ((b ++ newline ∷ []) ++ cs)
      ≡ ((b ++ newline ∷ []) ∷ (split_lines cs).0, (split_lines cs).1)
unfolding split_lines
split_line [] cs n = refl
split_line (c ∷ b) cs (h, n) = rw (h, split_line b cs n)

split_concat :
    (ls : List Bytes) (b : Bytes)
    → All IsLine ls
    → NoNewline b
    → split_lines (concat ls ++ b) ≡ (ls, b)
split_concat [] b a n = split_rest b n
split_concat (l ∷ ls) b ((x, e, h), a) n =
    ap split_lines (append_assoc l (concat ls) b)
    ∙ subst (λ k. split_lines (k ++ (concat ls ++ b)) ≡ (k ∷ ls, b)) (sym e)
        (split_line x (concat ls ++ b) h
          ∙ ap (λ (p : List Bytes × Bytes). ((x ++ newline ∷ []) ∷ p.0, p.1))
              (split_concat ls b a n))

-- The lines handed on are lines, as long as no partial line grew to its limit.
record AreLines (s : Follower) : Type 0 where
  handed : All IsLine s.handed
  partial : NoNewline s.partial

hand-AreLines :
    (l : Bytes) (s : Follower) → IsLine l → AreLines s → AreLines (hand (s.partial ++ l) s)
unfolding hand
hand-AreLines l s (b, e, n) a = record {
  handed = All-append IsLine s.handed ((s.partial ++ l) ∷ []) a.handed (
    (
      s.partial ++ b,
      ap (λ x. s.partial ++ x) e ∙ sym (append_assoc s.partial b (newline ∷ [])),
      All-append (λ c. (c == newline) ≡ false) s.partial b a.partial n,
    ),
    tt,
  );
  partial = tt;
}

keep_whole-AreLines : (l : Bytes) (s : Follower) → IsLine l → AreLines s → AreLines (keep_whole l s)
unfolding keep_whole
keep_whole-AreLines [] s i a = a
keep_whole-AreLines (c ∷ l) s i a = hand-AreLines (c ∷ l) s i a

keep_partial-AreLines :
    (b : Bytes) (s : Follower)
    → NoNewline b
    → length (s.partial ++ b) < max_partial_bytes
    → AreLines s
    → AreLines (keep_partial b s)
unfolding keep_partial
keep_partial-AreLines [] s n h a = a
keep_partial-AreLines (c ∷ b) s n h a =
    rw (lt→ltb (length (s.partial ++ c ∷ b)) max_partial_bytes h, keep_partial)
      (record {
        handed = a.handed;
        partial = All-append (λ x. (x == newline) ≡ false) s.partial (c ∷ b) a.partial n;
      })

read-AreLines :
    (seen : Bytes) (r : Read) (s : Follower)
    → Continues r
    → IsRead r
    → Keeps seen s
    → length (seen ++ bytes_of r) < max_partial_bytes
    → AreLines s
    → AreLines (read r s)
unfolding read
read-AreLines seen (whole b) s c i k h a = keep_whole-AreLines b s i a
read-AreLines seen (at_end b same) s c i k h a =
    keep_partial-AreLines b s i
      (omega (
        arith,
        ap length k.all,
        length-append (concat s.handed) s.partial,
        length-append s.partial b,
        length-append seen b,
      ))
      a
read-AreLines seen (at_end b (replaced ok)) s c i k h a = absurd c
read-AreLines seen (fails b ok) s c i k h a = absurd c

shorter :
    (xs ys zs : Bytes)
    → length (xs ++ (ys ++ zs)) < max_partial_bytes
    → length (xs ++ ys) < max_partial_bytes
shorter xs ys zs h =
    omega (arith, h, length-append xs (ys ++ zs), length-append ys zs, length-append xs ys)

follow-AreLines :
    (seen : Bytes) (rs : List Read) (s : Follower)
    → All Continues rs
    → All IsRead rs
    → Keeps seen s
    → length (seen ++ all_bytes rs) < max_partial_bytes
    → AreLines s
    → AreLines (follow rs s)
unfolding follow
follow-AreLines seen [] s c i k h a = a
follow-AreLines seen (r ∷ rs) s c i k h a =
    follow-AreLines (seen ++ bytes_of r) rs (read r s) c.1 i.1 (read-Keeps seen r s c.0 k)
      (subst (λ x. length x < max_partial_bytes)
        (sym (append_assoc seen (bytes_of r) (all_bytes rs))) h)
      (read-AreLines seen r s c.0 i.0 k (shorter seen (bytes_of r) (all_bytes rs) h) a)

-- However a file below the limit of a partial line was cut into reads, what was handed on are the
-- lines of the bytes read, and the partial line is what stands behind the last of them.
pub follow-split_lines :
    (rs : List Read)
    → All Continues rs
    → All IsRead rs
    → length (all_bytes rs) < max_partial_bytes
    → split_lines (all_bytes rs) ≡ ((follow rs opened).handed, (follow rs opened).partial)
follow-split_lines rs c i h =
    let k = follow_lem rs c in
    let a =
      follow-AreLines [] rs opened c i opened-Keeps h (record { handed = tt; partial = tt }) in
    ap split_lines (sym k.all)
    ∙ split_concat (follow rs opened).handed (follow rs opened).partial a.handed a.partial
