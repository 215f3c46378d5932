-- ===== src/Transcript/Status/Laws.antt =====
-- internal/transcript/result.go: the status that is read is the one that was written.
use tatara_claude_code_wrapp.Common.{
  ℕ, ◌+◌, ◌-◌, ◌*◌, ◌/◌, ◌%◌, ◌≤◌, ◌≡◌, ◌++◌, ◌∙◌, ap, arith, ◌||◌, ◌&&◌, not, Bool, false, List,
  [], ◌∷◌, Option, none, some, if_holds, ltb,
}
use tatara_claude_code_wrapp.Transcript.Status.{
  Bytes, starts_with_digit, in_range, is_digit, leading_status, behind, trim_separators,
  http_status_markers, status_behind, or_else, marked_status, search_status, outcome_error_status,
  is_word_byte,
}

-- The three digits of a number below 1000.
abbrev pub digits : ℕ → Bytes
digits n = (48 + n / 100) ∷ (48 + n / 10 % 10) ∷ (48 + n % 10) ∷ []

three_digits :
    (a b c : ℕ) (rest : Bytes)
    → a ≤ 9
    → b ≤ 9
    → c ≤ 9
    → starts_with_digit rest ≡ false
    → leading_status ((48 + a) ∷ (48 + b) ∷ (48 + c) ∷ rest) ≡ in_range (a * 100 + b * 10 + c)
unfolding leading_status
three_digits a b c rest ha hb hc ends = ground (arith, ends)

digits_value : (n : ℕ) → n / 100 * 100 + n / 10 % 10 * 10 + n % 10 ≡ n
digits_value n = omega arith

in_range_error : (n : ℕ) → 400 ≤ n → n ≤ 599 → in_range n ≡ some n
in_range_error n low high = ground arith

-- A status that begins the text, and is not followed by a fourth digit, is read back.
pub status-digits :
    (n : ℕ) (rest : Bytes)
    → 400 ≤ n
    → n ≤ 599
    → starts_with_digit rest ≡ false
    → outcome_error_status (digits n ++ rest) ≡ some n
unfolding outcome_error_status
status-digits n rest low high ends =
    let e : leading_status (digits n ++ rest) ≡ some n =
      three_digits (n / 100) (n / 10 % 10) (n % 10) rest (omega arith) (omega arith) (omega arith)
        ends
      ∙ ap in_range (digits_value n)
      ∙ in_range_error n low high in
    ap (λ o. or_else o (search_status false (digits n ++ rest))) e

abbrev pub IsError : Option ℕ → Type 0
IsError none = Unit
IsError (some n) = (400 ≤ n) × (n ≤ 599)

in_range-IsError : (n : ℕ) → IsError (in_range n)
in_range-IsError n =
    if_holds IsError (ltb n 400 || ltb 599 n) none (some n) (λ e. tt)
      (λ e. (ground arith, ground arith))

leading-IsError : (s : Bytes) → IsError (leading_status s)
unfolding leading_status
leading-IsError [] = tt
leading-IsError (a ∷ []) = tt
leading-IsError (a ∷ b ∷ []) = tt
leading-IsError (a ∷ b ∷ c ∷ rest) =
    if_holds IsError (not (is_digit a && is_digit b && is_digit c) || starts_with_digit rest) none _
      (λ e. tt) (λ e. in_range-IsError ((a - 48) * 100 + (b - 48) * 10 + (c - 48)))

or_else-IsError : (o p : Option ℕ) → IsError o → IsError p → IsError (or_else o p)
or_else-IsError none p h k = k
or_else-IsError (some n) p h k = h

behind-IsError : (o : Option Bytes) → IsError (status_behind o)
behind-IsError none = tt
behind-IsError (some rest) = leading-IsError (trim_separators rest)

marked-IsError : (ms : List Bytes) (s : Bytes) → IsError (marked_status ms s)
unfolding marked_status
marked-IsError [] s = tt
marked-IsError (m ∷ ms) s =
    or_else-IsError (status_behind (behind m s)) _ (behind-IsError (behind m s))
      (marked-IsError ms s)

search-IsError : (inside : Bool) (s : Bytes) → IsError (search_status inside s)
unfolding search_status
search-IsError inside [] = tt
search-IsError inside (b ∷ bs) =
    let h = search-IsError (is_word_byte b) bs in
    if_holds IsError inside _ _ (λ e. h)
      (λ e.
        or_else-IsError (marked_status http_status_markers (b ∷ bs)) _
          (marked-IsError http_status_markers (b ∷ bs)) h)

-- Whatever the text, a status that is reported is a client's or a server's error.
pub status-IsError : (s : Bytes) → IsError (outcome_error_status s)
unfolding outcome_error_status
status-IsError s = or_else-IsError (leading_status s) _ (leading-IsError s) (search-IsError false s)
