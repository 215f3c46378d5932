-- ===== src/Transcript/Status.antt =====
-- internal/transcript/result.go: the HTTP status that the error text of an outcome reports. A text is
-- its bytes, lower case and trimmed by the package `strings`, whose result is the argument.
pub mod Laws
use tatara_claude_code_wrapp.Common.{
  ℕ, ◌+◌, ◌-◌, ◌*◌, ◌&&◌, ◌||◌, not, ◌==◌, Bool, true, false, List, [], ◌∷◌, Option, none, some,
  if◌then◌else◌, leb, ltb,
}

abbrev pub Bytes : Type 0
Bytes = List ℕ

abbrev pub is_digit : ℕ → Bool
is_digit b = leb 48 b && leb b 57

abbrev pub starts_with_digit : Bytes → Bool
starts_with_digit [] = false
starts_with_digit (b ∷ bs) = is_digit b

abbrev pub in_range : ℕ → Option ℕ
in_range code = if ltb code 400 || ltb 599 code then none else some code

unfoldable pub leading_status : Bytes → Option ℕ
leading_status (a ∷ b ∷ c ∷ rest) =
    if not (is_digit a && is_digit b && is_digit c) || starts_with_digit rest
    then none
    else in_range ((a - 48) * 100 + (b - 48) * 10 + (c - 48))
leading_status _ = none

abbrev pub is_word_byte : ℕ → Bool
is_word_byte b =
    (leb 97 b && leb b 122) || (leb 65 b && leb b 90) || (leb 48 b && leb b 57) || b == 95

-- "http/1.1", "http", "status code", "status", "code", "->" and "returned".
abbrev pub http_status_markers : List Bytes
http_status_markers =
    (104 ∷ 116 ∷ 116 ∷ 112 ∷ 47 ∷ 49 ∷ 46 ∷ 49 ∷ [])
    ∷ (104 ∷ 116 ∷ 116 ∷ 112 ∷ [])
    ∷ (115 ∷ 116 ∷ 97 ∷ 116 ∷ 117 ∷ 115 ∷ 32 ∷ 99 ∷ 111 ∷ 100 ∷ 101 ∷ [])
    ∷ (115 ∷ 116 ∷ 97 ∷ 116 ∷ 117 ∷ 115 ∷ [])
    ∷ (99 ∷ 111 ∷ 100 ∷ 101 ∷ [])
    ∷ (45 ∷ 62 ∷ [])
    ∷ (114 ∷ 101 ∷ 116 ∷ 117 ∷ 114 ∷ 110 ∷ 101 ∷ 100 ∷ [])
    ∷ []

-- What stands behind a prefix.
unfoldable pub behind : Bytes → Bytes → Option Bytes
behind [] s = some s
behind (p ∷ ps) [] = none
behind (p ∷ ps) (b ∷ bs) = let rest = behind ps bs in if p == b then rest else none

-- `strings.TrimLeft(s, " :=\t")`.
unfoldable pub trim_separators : Bytes → Bytes
trim_separators [] = []
trim_separators (b ∷ bs) =
    let rest = trim_separators bs in
    if b == 32 || b == 58 || b == 61 || b == 9 then rest else b ∷ bs

abbrev pub status_behind : Option Bytes → Option ℕ
status_behind none = none
status_behind (some rest) = leading_status (trim_separators rest)

abbrev pub or_else : Option ℕ → Option ℕ → Option ℕ
or_else (some n) o = some n
or_else none o = o

unfoldable pub marked_status : List Bytes → Bytes → Option ℕ
unfolding behind trim_separators leading_status
marked_status [] s = none
marked_status (m ∷ ms) s = or_else (status_behind (behind m s)) (marked_status ms s)

-- The loop over the positions; the first argument says whether a word byte stands before.
unfoldable pub search_status : Bool → Bytes → Option ℕ
unfolding marked_status
search_status inside [] = none
search_status inside (b ∷ bs) =
    let rest = search_status (is_word_byte b) bs in
    if inside then rest else or_else (marked_status http_status_markers (b ∷ bs)) rest

unfoldable pub outcome_error_status : Bytes → Option ℕ
unfolding search_status
outcome_error_status s = or_else (leading_status s) (search_status false s)
