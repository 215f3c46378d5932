-- ===== src/Pushclient/Own.antt =====
-- internal/pushclient/pushclient.go: what a push carries is what was gathered of the wrapper's own
-- families, and nothing else.
use mathlib.Core.Path.{subst}
use text.Mathlib.Text.{starts_with}
use tatara_claude_code_wrapp.Common.{
  ◌≡◌, ◌∙◌, sym, ◌||◌, Bool, true, false, List, [], ◌∷◌, Option, none, some, String, if_holds,
  ◌+++◌, arith, Option-cases, inl, inr,
}
use tatara_claude_code_wrapp.Pushclient.{
  Family, keep_allowed, allowlisted, allowed_family, has_prefix, Gathered, encode_families, encoded,
  encode, Reads, Request, push,
}

-- A family that the wrapper registers.
abbrev pub is_own : String → Bool
is_own name = starts_with name "ccw_" || starts_with name "tatara_wrapper_"

-- The text of the wrapper's own among some families, in order; there is none if one of them cannot be
-- written.
pub data IsOwnText : List Family → Option String → Type 0 where
  empty : IsOwnText [] (some "")
  kept :
      (f : Family) (fs : List Family) (text rest : String)
      → is_own f.name ≡ true
      → f.text ≡ some text
      → IsOwnText fs (some rest)
      → IsOwnText (f ∷ fs) (some (text +++ rest))
  unwritten :
      (f : Family) (fs : List Family)
      → is_own f.name ≡ true
      → f.text ≡ none
      → IsOwnText (f ∷ fs) none
  cut :
      (f : Family) (fs : List Family)
      → is_own f.name ≡ true
      → IsOwnText fs none
      → IsOwnText (f ∷ fs) none
  left_out :
      (f : Family) (fs : List Family) (text : Option String)
      → is_own f.name ≡ false
      → IsOwnText fs text
      → IsOwnText (f ∷ fs) text

pub data IsOwnBody : Gathered → Option String → Type 0 where
  not_gathered : IsOwnBody none none
  gathered :
      (fs : List Family) (body : Option String) → IsOwnText fs body → IsOwnBody (some fs) body

allowed_own : (name : String) → allowed_family name ≡ is_own name
unfolding allowed_family has_prefix
allowed_own name = ground arith

encoded-IsOwn :
    (f : Family) (fs : List Family) (rest : Option String)
    → is_own f.name ≡ true
    → IsOwnText fs rest
    → IsOwnText (f ∷ fs) (encoded f.text rest)
encoded-IsOwn f fs none a h = elim (Option-cases f.text) [
  | inl missing ↦
      subst (λ t. IsOwnText (f ∷ fs) (encoded t none)) (sym missing) (unwritten f fs a missing)
  | inr (text, found) ↦ subst (λ t. IsOwnText (f ∷ fs) (encoded t none)) (sym found) (cut f fs a h)
]
encoded-IsOwn f fs (some rest) a h = elim (Option-cases f.text) [
  | inl missing ↦
      subst (λ t. IsOwnText (f ∷ fs) (encoded t (some rest))) (sym missing)
        (unwritten f fs a missing)
  | inr (text, found) ↦
      subst (λ t. IsOwnText (f ∷ fs) (encoded t (some rest))) (sym found)
        (kept f fs text rest a found h)
]

keep_allowed-IsOwn : (fs : List Family) → IsOwnText fs (encode_families (keep_allowed fs))
unfolding keep_allowed encode_families
keep_allowed-IsOwn [] = empty
keep_allowed-IsOwn (f ∷ fs) =
    if_holds (λ (gs : List Family). IsOwnText (f ∷ fs) (encode_families gs)) (allowed_family f.name)
      _ _
      (λ a.
        encoded-IsOwn f fs (encode_families (keep_allowed fs)) (sym (allowed_own f.name) ∙ a)
          (keep_allowed-IsOwn fs))
      (λ a. left_out f fs _ (sym (allowed_own f.name) ∙ a) (keep_allowed-IsOwn fs))

pub encode-IsOwn : (g : Gathered) → IsOwnBody g (encode (allowlisted g))
unfolding encode allowlisted
encode-IsOwn none = not_gathered
encode-IsOwn (some fs) = gathered fs _ (keep_allowed-IsOwn fs)

-- What a list of tries sends to an address, in order: a push of its own text for each that has one and
-- can make its request, and nothing for the others.
pub data Posts (address : String) : List Reads → List Request → Type 0 where
  done : Posts address [] []
  posts :
      (x : Reads) (xs : List Reads) (body : String) (rs : List Request)
      → IsOwnBody x.gathered (some body)
      → x.makes_request ≡ true
      → Posts address xs rs
      → Posts address (x ∷ xs) (push address body ∷ rs)
  without_body :
      (x : Reads) (xs : List Reads) (rs : List Request)
      → IsOwnBody x.gathered none
      → Posts address xs rs
      → Posts address (x ∷ xs) rs
  without_request :
      (x : Reads) (xs : List Reads) (rs : List Request)
      → x.makes_request ≡ false
      → Posts address xs rs
      → Posts address (x ∷ xs) rs
