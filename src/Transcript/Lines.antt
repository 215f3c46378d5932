-- ===== src/Transcript/Lines.antt =====
-- internal/transcript/tailer.go: how `Follow` makes lines of what it reads, and how far it has got.
pub mod Laws
pub mod Split
pub mod Polls
mod Examples
use tatara_claude_code_wrapp.Common.{
  ℕ, ◌+◌, ◌*◌, ◌++◌, Bool, true, false, List, [], ◌∷◌, if◌then◌else◌, ltb, length,
}

abbrev pub Bytes : Type 0
Bytes = List ℕ

-- `maxPartialBytes`.
abbrev pub max_partial_bytes : ℕ
max_partial_bytes = 16 * 1024 * 1024

-- What `os.Stat` says at the end of the file: it is the one that is open, or another one, which then
-- opens or does not.
pub data Stat : Type 0 where
  same : Stat
  replaced : Bool → Stat

-- One call of `ReadBytes('\n')`, with the bytes that it returns: no error, the end of the file, or
-- another error, with the outcome of opening the file again.
pub data Read : Type 0 where
  whole : Bytes → Read
  at_end : Bytes → Stat → Read
  fails : Bytes → Bool → Read

-- `handed` is all that was given to `processLine`.
pub record Follower : Type 0 where
  pub partial : Bytes
  pub read_pos : ℕ
  pub handed : List Bytes

abbrev pub opened : Follower
opened = record { partial = []; read_pos = 0; handed = [] }

-- What `CaughtUpTo` can see one after the other: `processLine` has returned, and `readPos` is raised.
pub data Step : Type 0 where
  processes : Bytes → Step
  advances : ℕ → Step

abbrev pub take_step : Step → Follower → Follower
take_step (processes full) s = record s { partial = []; handed = s.handed ++ full ∷ [] }
take_step (advances n) s = record s { read_pos = s.read_pos + n }

abbrev pub take_steps : List Step → Follower → Follower
take_steps [] s = s
take_steps (x ∷ xs) s = take_steps xs (take_step x s)

-- Each state on the way, the first and the last one too.
abbrev pub visited : List Step → Follower → List Follower
visited [] s = s ∷ []
visited (x ∷ xs) s = s ∷ visited xs (take_step x s)

unfoldable pub hand_steps : Bytes → List Step
hand_steps full = processes full ∷ advances (length full) ∷ []

unfoldable pub hand : Bytes → Follower → Follower
unfolding hand_steps
hand full s = take_steps (hand_steps full) s

abbrev pub is_nil : Bytes → Bool
is_nil [] = true
is_nil (c ∷ cs) = false

unfoldable pub keep_partial : Bytes → Follower → Follower
unfolding hand
keep_partial line s =
    if is_nil line
    then s
    else if ltb (length (s.partial ++ line)) max_partial_bytes
    then record s { partial = s.partial ++ line }
    else hand (s.partial ++ line) s

unfoldable pub keep_whole : Bytes → Follower → Follower
unfolding hand
keep_whole line s = if is_nil line then s else hand (s.partial ++ line) s

-- `openFile`, after which the position is 0 if it opened.
abbrev pub reopen : Bool → Follower → Follower
reopen true s = record s { partial = []; read_pos = 0 }
reopen false s = record s { partial = [] }

unfoldable pub read : Read → Follower → Follower
unfolding keep_partial keep_whole
read (whole line) s = keep_whole line s
read (at_end line same) s = keep_partial line s
read (at_end line (replaced ok)) s = reopen ok (keep_partial line s)
read (fails line ok) s = reopen ok (keep_partial line s)

unfoldable pub follow : List Read → Follower → Follower
follow [] s = s
follow (r ∷ rs) s = follow rs (read r s)

unfoldable pub seen_partial : Bytes → Follower → List Follower
unfolding hand_steps
seen_partial line s =
    if is_nil line
    then s ∷ []
    else if ltb (length (s.partial ++ line)) max_partial_bytes
    then s ∷ []
    else visited (hand_steps (s.partial ++ line)) s

unfoldable pub seen_whole : Bytes → Follower → List Follower
unfolding hand_steps
seen_whole line s = if is_nil line then s ∷ [] else visited (hand_steps (s.partial ++ line)) s

-- What a poll on another goroutine can find while a read is worked off.
unfoldable pub seen : Read → Follower → List Follower
unfolding seen_partial seen_whole keep_partial
seen (whole line) s = seen_whole line s
seen (at_end line same) s = seen_partial line s
seen (at_end line (replaced ok)) s = seen_partial line s ++ reopen ok (keep_partial line s) ∷ []
seen (fails line ok) s = seen_partial line s ++ reopen ok (keep_partial line s) ∷ []

unfoldable pub polls : List Read → Follower → List Follower
unfolding seen read
polls [] s = s ∷ []
polls (r ∷ rs) s = seen r s ++ polls rs (read r s)

-- One look of `CaughtUpTo`.
unfoldable pub caught_up_to : ℕ → Follower → Bool
caught_up_to target s = if ltb s.read_pos target then false else true
