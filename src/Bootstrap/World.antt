-- ===== src/Bootstrap/World.antt =====
-- internal/bootstrap/resume.go and repo.go: what the repairs of a checkout read of the world and what
-- they do to it, and the steps that several of them share. The logs are left out.
use Prim.Native.String.{len, slice}
use text.Mathlib.Text.{starts_with, find?}
use tatara_claude_code_wrapp.Common.{
  ℕ, ◌+◌, ◌-◌, ◌*◌, Bool, true, false, not, ◌&&◌, ◌||◌, List, [], ◌∷◌, ◌++◌, Option, none, some,
  String, if◌then◌else◌, is_empty, str_eq, ltb, leb, trim_space,
}
use tatara_claude_code_wrapp.Bootstrap.Git.{Trace, Git, after, succeeds}

-- What the walk over `.git/refs` meets.
pub record RefEntry : Type 0 where
  pub path : String
  pub name : String
  pub is_dir : Bool

-- A regular file that the walk over the working tree meets outside `.git`: its path below the
-- checkout, and its size, if they can be had.
pub record WorkFile : Type 0 where
  pub rel : Option String
  pub size : Option ℕ

-- `Trace` is what git was run for before the world is looked at.
pub record World : Type 0 where
  pub git : Git
  pub metrics : Bool
  pub has_git_dir : String → Bool
  pub remove_all : Trace → String → Option String
  pub opens_root : String → Bool
  pub removes_lock : String → String → Bool
  pub refs : String → List RefEntry
  pub has_marker : Trace → String → String → Bool
  pub files : Trace → String → List WorkFile
  pub head : Trace → String → Option String
  pub ref : Trace → String → String → Option String

-- The counters are the lists of the labels that they were incremented under.
pub record Repair : Type 0 where
  pub trace : Trace
  pub recoveries : List String
  pub locks : List String
  pub oversized : ℕ
  pub removals : List String

unfoldable pub run : String → List String → Repair → Repair
run dir args s = record s { trace = after dir args s.trace }

abbrev pub works : World → String → List String → Repair → Bool
works w dir args s = succeeds w.git dir args s.trace

unfoldable pub record_recovery : World → String → Repair → Repair
record_recovery w kind s =
    if w.metrics then record s { recoveries = s.recoveries ++ kind ∷ [] } else s

unfoldable pub record_lock_cleared : World → String → Repair → Repair
record_lock_cleared w label s = if w.metrics then record s { locks = s.locks ++ label ∷ [] } else s

-- `strings.HasSuffix`.
abbrev pub has_suffix : String → String → Bool
has_suffix s t = leb (len t) (len s) && str_eq (slice s (len s - len t) (len s)) t

abbrev pub git_lock_files : List String
git_lock_files =
    "index.lock" ∷ "shallow.lock" ∷ "HEAD.lock" ∷ "config.lock" ∷ "packed-refs.lock" ∷ []

unfoldable pub clear_top_locks : World → String → List String → Repair → Repair
unfolding record_lock_cleared
clear_top_locks w dest [] s = s
clear_top_locks w dest (name ∷ names) s =
    clear_top_locks w dest names
      (if w.removes_lock dest name then record_lock_cleared w name s else s)

abbrev pub is_stale : World → String → RefEntry → Bool
is_stale w dest e = not (e.is_dir || not (has_suffix e.name ".lock")) && w.removes_lock dest e.path

unfoldable pub clear_ref_locks : World → String → List RefEntry → Repair → Repair
unfolding record_lock_cleared
clear_ref_locks w dest [] s = s
clear_ref_locks w dest (e ∷ es) s =
    clear_ref_locks w dest es (if is_stale w dest e then record_lock_cleared w "refs" s else s)

unfoldable pub clear_stale_locks : World → String → Repair → Repair
unfolding clear_top_locks clear_ref_locks
clear_stale_locks w dest s =
    if w.opens_root dest
    then clear_ref_locks w dest (w.refs dest) (clear_top_locks w dest git_lock_files s)
    else s

abbrev pub max_staged_blob_bytes : ℕ
max_staged_blob_bytes = 10 * 1024 * 1024

abbrev pub unstage : String → List String
unstage rel = "reset" ∷ "-q" ∷ "--" ∷ rel ∷ []

abbrev pub count_oversized : World → Repair → Repair
count_oversized w s = if w.metrics then record s { oversized = s.oversized + 1 } else s

unfoldable pub unstage_file : World → String → Option ℕ → Option String → Repair → Repair
unfolding run
unstage_file w dir none rel s = s
unstage_file w dir (some n) none s = s
unstage_file w dir (some n) (some rel) s =
    if leb n max_staged_blob_bytes
    then s
    else if works w dir (unstage rel) s
    then count_oversized w (run dir (unstage rel) s)
    else run dir (unstage rel) s

unfoldable pub unstage_files : World → String → List WorkFile → Repair → Repair
unfolding unstage_file
unstage_files w dir [] s = s
unstage_files w dir (f ∷ fs) s = unstage_files w dir fs (unstage_file w dir f.size f.rel s)

unfoldable pub unstage_oversized_blobs : World → String → Repair → Repair
unfolding unstage_files
unstage_oversized_blobs w dir s = unstage_files w dir (w.files s.trace dir) s

-- `len(s) < 7`.
abbrev pub long_enough : String → String
long_enough s = if ltb (len s) 7 then "" else s

abbrev pub is_found : Option ℕ → Bool
is_found none = false
is_found (some i) = true

abbrev pub is_inside : String → Bool
is_inside ref = starts_with ref "refs/" && not (is_found (find? ref ".."))

abbrev pub of_ref : Option String → String
of_ref none = ""
of_ref (some b) = long_enough (trim_space b)

abbrev pub of_head : World → String → Trace → String → String
of_head w dest t s =
    let ref = slice s 5 (len s) in
    if starts_with s "ref: "
    then (if is_inside ref then of_ref (w.ref t dest ref) else "")
    else long_enough s

abbrev pub head_sha_from : World → String → Trace → Option String → String
head_sha_from w dest t none = ""
head_sha_from w dest t (some head) = of_head w dest t (trim_space head)

unfoldable pub head_sha : World → String → Repair → String
head_sha w dest s = head_sha_from w dest s.trace (w.head s.trace dest)

unfoldable pub short_sha : String → String
short_sha sha =
    if is_empty sha then "an unnamed commit" else if ltb 12 (len sha) then slice sha 0 12 else sha
