-- ===== src/Transcript/Tokens.antt =====
-- internal/transcript/result.go: the token totals of the last turn of a transcript, for each model.
-- An `int64` is its two's complement, a number below 2 ^ 64.
pub mod Laws
use text.Mathlib.Text.{starts_with}
use tatara_claude_code_wrapp.Common.{
  ℕ, ◌+◌, ◌%◌, ◌^◌, ◌≡◌, ◌++◌, ◌&&◌, ◌∙◌, ap, refl, not, Bool, true, false, List, [], ◌∷◌, Option,
  none, some, String, if◌then◌else◌, str_eq, lookup, insert, trim_space,
}
use tatara_claude_code_wrapp.Transcript.Scan.{Transcript, unopened, scanned, scan, scan-append}

pub record TurnTokens : Type 0 where
  pub model : String
  pub input : ℕ
  pub output : ℕ
  pub cache_read : ℕ
  pub cache_creation : ℕ

-- `content` is raw, "" if there is none.
pub record TurnLine : Type 0 where
  pub type : String
  pub content : String
  pub model : String
  pub input : ℕ
  pub output : ℕ
  pub cache_read : ℕ
  pub cache_creation : ℕ

unfoldable pub is_json_string : String → Bool
is_json_string raw = starts_with (trim_space raw) "\""

abbrev pub add64 : ℕ → ℕ → ℕ
add64 a b = (a + b) % 2 ^ 64

-- The map to pointers, and the order of its keys.
pub record Totals : Type 0 where
  pub by_model : List (String × TurnTokens)
  pub order : List String

abbrev pub no_totals : Totals
no_totals = record { by_model = []; order = [] }

abbrev pub added : TurnLine → TurnTokens → TurnTokens
added tl t = record t {
  input = add64 t.input tl.input;
  output = add64 t.output tl.output;
  cache_read = add64 t.cache_read tl.cache_read;
  cache_creation = add64 t.cache_creation tl.cache_creation;
}

abbrev pub no_tokens : String → TurnTokens
no_tokens model = record {
  model = model;
  input = 0;
  output = 0;
  cache_read = 0;
  cache_creation = 0;
}

unfoldable pub add_line : TurnLine → Totals → Totals
add_line tl a = elim (lookup tl.model a.by_model) [
  | some t ↦ record a { by_model = insert tl.model (added tl t) a.by_model }
  | none ↦ record {
    by_model = insert tl.model (added tl (no_tokens tl.model)) a.by_model;
    order = a.order ++ tl.model ∷ [];
  }
]

abbrev pub is_prompt : TurnLine → Bool
is_prompt tl = str_eq tl.type "user" && is_json_string tl.content

abbrev pub note_tokens : Option TurnLine → Totals → Totals
note_tokens none a = a
note_tokens (some tl) a =
    if is_prompt tl
    then no_totals
    else if not (str_eq tl.type "assistant")
    then a
    else add_line tl a

-- The loop that copies the totals out; a model without totals is a nil dereference: `none`.
unfoldable pub collect : List (String × TurnTokens) → List String → Option (List TurnTokens)
collect by_model [] = some []
collect by_model (m ∷ ms) =
    let rest = collect by_model ms in
    elim (lookup m by_model) [
      | none ↦ none
      | some t ↦ elim rest [ none ↦ none | some out ↦ some (t ∷ out) ]
    ]

pub data SumResult : Type 0 where
  read_error panic : SumResult
  sums : List TurnTokens → SumResult

abbrev pub sums_of : Option (List TurnTokens) → SumResult
sums_of none = panic
sums_of (some out) = sums out

unfoldable pub sum_turn_tokens : (String → Option TurnLine) → Transcript → SumResult
unfolding scan collect add_line
sum_turn_tokens decode unopened = read_error
sum_turn_tokens decode (scanned ls failed) =
    let a = scan (λ l. note_tokens (decode l)) ls no_totals in
    if failed then read_error else sums_of (collect a.by_model a.order)
