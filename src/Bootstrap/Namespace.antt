-- ===== src/Bootstrap/Namespace.antt =====
-- internal/bootstrap/namespace.go: the path below the workspace at which a repository is cloned.
use Prim.Native.String.{String, [], ◌∷◌, len, slice}
use text.Mathlib.Text.{starts_with, find?}
use tatara_claude_code_wrapp.Common.{
  ℕ, ◌+◌, ◌-◌, ◌&&◌, not, Bool, true, Option, none, some, if◌then◌else◌, is_empty, ltb, trim_space,
}
use tatara_claude_code_wrapp.Bootstrap.World.{has_suffix, is_found}

-- `s[i:]`.
abbrev pub from : ℕ → String → String
from i s = slice s i (len s)

abbrev pub has : String → String → Bool
has s t = is_found (find? s t)

abbrev before_slash : ℕ → Option ℕ → Bool
before_slash i none = true
before_slash i (some slash) = ltb i slash

abbrev pub cut_scheme : String → Option ℕ → String
cut_scheme s none = s
cut_scheme s (some i) = from (i + 3) s

-- What stands behind a separator that stands before the first slash.
abbrev pub cut_at : String → Option ℕ → String
cut_at s none = s
cut_at s (some i) = if before_slash i (find? s "/") then from (i + 1) s else s

unfoldable pub trim_slashes_left : String → String
trim_slashes_left [] = ""
trim_slashes_left (c ∷ s) =
    let rest = trim_slashes_left s in if starts_with (c ∷ s) "/" then rest else c ∷ s

unfoldable pub trim_slashes_right : String → String
trim_slashes_right [] = ""
trim_slashes_right (c ∷ s) =
    let rest = trim_slashes_right s in
    if is_empty rest && starts_with (c ∷ s) "/" then "" else c ∷ rest

-- Split at the slashes, the first part left out, and joined again.
abbrev pub without_host : String → Option ℕ → String
without_host s none = ""
without_host s (some i) = from (i + 1) s

abbrev pub without_git : String → String
without_git s = if has_suffix s ".git" then slice s 0 (len s - 4) else s

unfoldable pub namespace_path : String → String
unfolding trim_slashes_left trim_slashes_right
namespace_path clone_url =
    let s0 = trim_space clone_url in
    let has_scheme_sep = has s0 "://" in
    let s1 = cut_scheme s0 (find? s0 "://") in
    let s2 =
      if not has_scheme_sep && not (starts_with s1 "/") then cut_at s1 (find? s1 ":") else s1 in
    let s3 = trim_slashes_right (trim_slashes_left (cut_at s2 (find? s2 "@"))) in
    let out = without_git (if has_scheme_sep then without_host s3 (find? s3 "/") else s3) in
    if has out "/" then out else ""
