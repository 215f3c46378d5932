-- ===== src/Transcript/Tokens/Laws.antt =====
-- internal/transcript/result.go: the token totals are those of the last turn, and always there.
use tatara_claude_code_wrapp.Common.{
  ◌≡◌, ◌++◌, ◌∙◌, ap, refl, Bool, true, false, List, [], ◌∷◌, Option, none, some, inl, inr, String,
  if◌then◌else◌, str_eq, eq_refl, eq_iff, lookup, insert, lookup-insert, arith, Option-cases,
  Bool-cases, All, All-append, map,
}
use tatara_claude_code_wrapp.Transcript.Scan.{scanned, scan, scan-append}
use tatara_claude_code_wrapp.Transcript.Tokens.{
  TurnTokens, TurnLine, Totals, no_totals, no_tokens, added, add_line, is_prompt, note_tokens,
  collect, read_error, sums, sum_turn_tokens, sums_of,
}

-- A typed prompt starts the count again: whatever the transcript holds before the last prompt, the
-- totals are those of the lines behind it alone.
pub sum_turn_tokens_resets :
    (decode : String → Option TurnLine) (before after : List String) (l : String) (tl : TurnLine)
    → decode l ≡ some tl
    → is_prompt tl ≡ true
    → (failed : Bool)
    → sum_turn_tokens decode (scanned (before ++ l ∷ after) failed)
      ≡ sum_turn_tokens decode (scanned after failed)
unfolding sum_turn_tokens scan
sum_turn_tokens_resets decode before after l tl d p failed =
    ap (λ (a : Totals). if failed then read_error else sums_of (collect a.by_model a.order))
      (scan-append (λ x. note_tokens (decode x)) before (l ∷ after) no_totals ∙ again)
  where
    again :
        scan
          (λ x. note_tokens (decode x))
          (l ∷ after)
          (scan (λ x. note_tokens (decode x)) before no_totals)
        ≡ scan (λ x. note_tokens (decode x)) after no_totals
    again = rw (d, p)

abbrev pub HasTotal : List (String × TurnTokens) → String → Type 0
HasTotal by_model m = (t : TurnTokens) × (lookup m by_model ≡ some t)

abbrev pub IsKeyed : List (String × TurnTokens) → Type 0
IsKeyed by_model = (m : String) (t : TurnTokens) → lookup m by_model ≡ some t → t.model ≡ m

abbrev pub model_of : TurnTokens → String
model_of t = t.model

-- Totals stand under their own model, and every model in the order has some.
abbrev AllTotal : Totals → Type 0
AllTotal a = IsKeyed a.by_model × All (HasTotal a.by_model) a.order

module _ (m : String) (t : TurnTokens) (by_model : List (String × TurnTokens)) where
  insert-HasTotal_self : HasTotal (insert m t by_model) m
  insert-HasTotal_self = (t, ground (arith, eq_refl m, lookup-insert m m t by_model))

  insert-HasTotal : (k : String) → HasTotal by_model k → HasTotal (insert m t by_model) k
  insert-HasTotal k (u, e) = elim (Bool-cases (str_eq k m)) [
    | inl same ↦ (t, ground (arith, eq_iff m k, eq_iff k m, lookup-insert k m t by_model))
    | inr other ↦ (u, ground (arith, eq_iff m k, eq_iff k m, lookup-insert k m t by_model))
  ]

  insert-All :
      (ks : List String) → All (HasTotal by_model) ks → All (HasTotal (insert m t by_model)) ks
  insert-All [] a = tt
  insert-All (k ∷ ks) (h, a) = (insert-HasTotal k h, insert-All ks a)

  insert-IsKeyed : t.model ≡ m → IsKeyed by_model → IsKeyed (insert m t by_model)
  insert-IsKeyed own keyed k u e =
      ground (arith, keyed k u, eq_iff m k, eq_iff k m, lookup-insert k m t by_model)

add_line-AllTotal : (tl : TurnLine) (a : Totals) → AllTotal a → AllTotal (add_line tl a)
unfolding add_line
add_line-AllTotal tl a (k, h) = elim (Option-cases (lookup tl.model a.by_model)) [
  | inr (t, e) ↦
      rw (e, add_line)
        (
          insert-IsKeyed tl.model (added tl t) a.by_model (k tl.model t e) k,
          insert-All tl.model (added tl t) a.by_model a.order h,
        )
  | inl e ↦
      let u = added tl (no_tokens tl.model) in
      rw (e, add_line)
        (
          insert-IsKeyed tl.model u a.by_model refl k,
          All-append (HasTotal (insert tl.model u a.by_model)) a.order (tl.model ∷ [])
              (insert-All tl.model u a.by_model a.order h)
              (insert-HasTotal_self tl.model u a.by_model, tt),
        )
]

no_totals-AllTotal : AllTotal no_totals
unfolding lookup
no_totals-AllTotal = (λ m t e. cc, tt)

note_tokens-AllTotal : (o : Option TurnLine) (a : Totals) → AllTotal a → AllTotal (note_tokens o a)
note_tokens-AllTotal none a h = h
note_tokens-AllTotal (some tl) a h = elim (Bool-cases (is_prompt tl)) [
  | inl prompt ↦ rw (prompt, note_tokens) no_totals-AllTotal
  | inr no_prompt ↦ elim (Bool-cases (str_eq tl.type "assistant")) [
    | inl says ↦ rw (no_prompt, note_tokens) (rw says (add_line-AllTotal tl a h))
    | inr silent ↦ rw (no_prompt, note_tokens) (rw silent h)
  ]
]

scan-AllTotal :
    (decode : String → Option TurnLine) (ls : List String) (a : Totals)
    → AllTotal a
    → AllTotal (scan (λ l. note_tokens (decode l)) ls a)
unfolding scan
scan-AllTotal decode [] a h = h
scan-AllTotal decode (l ∷ ls) a h =
    scan-AllTotal decode ls (note_tokens (decode l) a) (note_tokens-AllTotal (decode l) a h)

collect_models :
    (by_model : List (String × TurnTokens)) (ms : List String)
    → IsKeyed by_model
    → All (HasTotal by_model) ms
    → (out : List TurnTokens) × (collect by_model ms ≡ some out) × (map model_of out ≡ ms)
unfolding collect
collect_models by_model [] k h = ([], refl, refl)
collect_models by_model (m ∷ ms) k ((t, e), h) =
    let (out, found, same) = collect_models by_model ms k h in
    (t ∷ out, rw (e, found, collect), rw (k m t e, same))

-- Every read that does not fail gives totals: no model of the order is without them, and they stand
-- in the order in which the models first answered in the last turn.
sum_turn_tokens_lem :
    (decode : String → Option TurnLine) (ls : List String)
    → (out : List TurnTokens) × (sum_turn_tokens decode (scanned ls false) ≡ sums out)
      × (map model_of out ≡ (scan (λ l. note_tokens (decode l)) ls no_totals).order)
unfolding sum_turn_tokens
sum_turn_tokens_lem decode ls =
    let a = scan (λ l. note_tokens (decode l)) ls no_totals in
    let (k, h) = scan-AllTotal decode ls no_totals no_totals-AllTotal in
    let (out, e, same) = collect_models a.by_model a.order k h in (out, ap sums_of e, same)
