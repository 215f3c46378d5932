-- ===== src/Transcript/Queue.antt =====
-- internal/transcript/tailer.go: the `queueTracker` of the messages that were parked during a turn.
pub mod Laws
use tatara_claude_code_wrapp.Common.{
  ℕ, ◌-◌, ◌++◌, Bool, true, false, List, [], ◌∷◌, Option, none, some, String, Time, zero_time,
  if◌then◌else◌, ltb, is_empty, str_eq, length, drop,
}

-- `maxPendingQueueItems`.
abbrev pub max_pending_queue_items : ℕ
max_pending_queue_items = 128

pub record QueuedItem : Type 0 where
  pub key : String
  pub at : Time

pub record QueueTracker : Type 0 where
  pub pending : List QueuedItem

abbrev pub empty_queue : QueueTracker
empty_queue = record { pending = [] }

abbrev pub keep_newest : ℕ → List QueuedItem → List QueuedItem
keep_newest n items = if ltb n (length items) then drop (length items - n) items else items

unfoldable pub enqueue : String → Time → QueueTracker → QueueTracker
enqueue key at q = record {
  pending = keep_newest max_pending_queue_items (q.pending ++ record { key = key; at = at } ∷ []);
}

abbrev put_back : QueuedItem → Option (List QueuedItem) → Option (List QueuedItem)
put_back it none = none
put_back it (some its) = some (it ∷ its)

-- The items without the oldest one of this key, if there is one.
unfoldable pub without : String → List QueuedItem → Option (List QueuedItem)
without key [] = none
without key (it ∷ its) =
    let rest = without key its in if str_eq it.key key then some its else put_back it rest

abbrev drop_item : String → List QueuedItem → List QueuedItem
drop_item key [] = []
drop_item key (it ∷ its) =
    if is_empty key then [] else elim (without key (it ∷ its)) [ some rest ↦ rest | none ↦ its ]

unfoldable pub remove : String → QueueTracker → QueueTracker
unfolding without
remove key q = record { pending = drop_item key q.pending }

-- `PendingSince`, the zero time with `false`.
unfoldable pub pending_since : QueueTracker → Time × Bool
pending_since q = elim q.pending [ [] ↦ (zero_time, false) | it ∷ its ↦ (it.at, true) ]
