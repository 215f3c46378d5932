-- ===== src/Bootstrap/Skills.antt =====
-- internal/bootstrap/skills.go: which skills are for a profile. The package `yaml.v3` is a parameter.
pub mod Install
pub mod Clone
pub mod Extra
use Prim.Native.Char.{Char, code}
use Prim.Native.String.{String, [], ◌∷◌, len, slice}
use text.Mathlib.Text.{starts_with, find?}
use tatara_claude_code_wrapp.Common.{
  ◌+◌, ◌&&◌, ◌||◌, ◌==◌, Bool, true, false, List, Option, none, some, if◌then◌else◌, is_empty,
  str_eq,
}
use tatara_claude_code_wrapp.Bootstrap.Namespace.{from}

-- A carriage return goes if a line feed follows.
unfoldable pub without_cr : Char → String → String → String
without_cr c [] rest = c ∷ rest
without_cr c (d ∷ s) rest = if code c == 13 && code d == 10 then rest else c ∷ rest

-- `strings.ReplaceAll(s, "\r\n", "\n")`.
unfoldable pub replace_crlf : String → String
unfolding without_cr
replace_crlf [] = ""
replace_crlf (c ∷ s) = without_cr c s (replace_crlf s)

module _ (yaml : String → Option (List String)) where
  abbrev pub profiles_of : Option (List String) → List String
  profiles_of none = List.[]
  profiles_of (some ps) = ps

  abbrev pub frontmatter : String → List String
  frontmatter body = elim (find? body "\n---") [
    | none ↦ List.[]
    | some stop ↦ profiles_of (yaml (slice body 0 stop))
  ]

  -- `yaml` gives the profiles of a header, if it can be decoded.
  unfoldable pub parse_profiles : String → List String
  unfolding replace_crlf
  parse_profiles skill_md =
      let s = replace_crlf skill_md in
      if starts_with s "---\n" then frontmatter (from 4 s) else List.[]

unfoldable pub names_profile : String → List String → Bool
names_profile active List.[] = false
names_profile active (List.◌∷◌ p ps) =
    let rest = names_profile active ps in if str_eq p "*" || str_eq p active then true else rest

abbrev pub is_wildcard : List String → Bool
is_wildcard List.[] = true
is_wildcard (List.◌∷◌ p ps) = false

unfoldable pub should_install : String → List String → Bool
unfolding names_profile
should_install active profiles =
    if is_empty active
    then true
    else if is_wildcard profiles
    then true
    else names_profile active profiles
