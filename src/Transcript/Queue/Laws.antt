-- ===== src/Transcript/Queue/Laws.antt =====
-- internal/transcript/tailer.go: what the `queueTracker` holds is bounded, and in order.
use mathlib.Core.List.{append_assoc, append-nil}
use mathlib.Core.Path.{subst}
use tatara_claude_code_wrapp.Common.{
  ℕ, zero, suc, ◌-◌, ◌≤◌, ◌++◌, sym, List, [], ◌∷◌, Option, none, some, String, Time, ltb, is_empty,
  str_eq, length, drop, length-drop, arith, Bool-cases, Option-cases, inl, inr,
}
use tatara_claude_code_wrapp.Transcript.Queue.{
  QueuedItem, QueueTracker, empty_queue, max_pending_queue_items, keep_newest, enqueue, without,
  remove, put_back, drop_item,
}

-- The first list is the second one with items left out.
pub data Within : List QueuedItem → List QueuedItem → Type 0 where
  done : Within [] []
  left_out : {xs ys : List QueuedItem} {y : QueuedItem} → Within xs ys → Within xs (y ∷ ys)
  kept : {xs ys : List QueuedItem} {y : QueuedItem} → Within xs ys → Within (y ∷ xs) (y ∷ ys)

Within-nil : (ys : List QueuedItem) → Within [] ys
Within-nil [] = done
Within-nil (y ∷ ys) = left_out (Within-nil ys)

Within-self : (ys : List QueuedItem) → Within ys ys
Within-self [] = done
Within-self (y ∷ ys) = kept (Within-self ys)

Within-trans : {xs ys zs : List QueuedItem} → Within xs ys → Within ys zs → Within xs zs
Within-trans w done = w
Within-trans w (left_out v) = left_out (Within-trans w v)
Within-trans (left_out w) (kept v) = left_out (Within-trans w v)
Within-trans (kept w) (kept v) = kept (Within-trans w v)

Within-append :
    {xs ys : List QueuedItem} (zs : List QueuedItem) → Within xs ys → Within (xs ++ zs) (ys ++ zs)
Within-append zs done = Within-self zs
Within-append zs (left_out w) = left_out (Within-append zs w)
Within-append zs (kept w) = kept (Within-append zs w)

drop-Within : (n : ℕ) (xs : List QueuedItem) → Within (drop n xs) xs
drop-Within zero xs = Within-self xs
drop-Within (suc n) [] = done
drop-Within (suc n) (x ∷ xs) = left_out (drop-Within n xs)

keep_newest-Within : (n : ℕ) (xs : List QueuedItem) → Within (keep_newest n xs) xs
keep_newest-Within n xs = elim (Bool-cases (ltb n (length xs))) [
  | inl over ↦ rw over (drop-Within (length xs - n) xs)
  | inr fits ↦ rw fits (Within-self xs)
]

length-keep_newest : (n : ℕ) (xs : List QueuedItem) → length (keep_newest n xs) ≤ n
length-keep_newest n xs = ground (arith, length-drop (length xs - n) xs)

length-Within : {xs ys : List QueuedItem} → Within xs ys → length xs ≤ length ys
length-Within done = omega arith
length-Within (left_out w) = omega (arith, length-Within w)
length-Within (kept w) = omega (arith, length-Within w)

abbrev IsLeft : List QueuedItem → Option (List QueuedItem) → Type 0
IsLeft xs none = Unit
IsLeft xs (some rest) = Within rest xs

put_back-IsLeft :
    (x : QueuedItem) (xs : List QueuedItem) (o : Option (List QueuedItem))
    → IsLeft xs o
    → IsLeft (x ∷ xs) (put_back x o)
put_back-IsLeft x xs none w = tt
put_back-IsLeft x xs (some rest) w = kept w

without-IsLeft : (key : String) (xs : List QueuedItem) → IsLeft xs (without key xs)
unfolding without
without-IsLeft key [] = tt
without-IsLeft key (x ∷ xs) = elim (Bool-cases (str_eq x.key key)) [
  | inl found ↦ rw (found, without) (left_out (Within-self xs))
  | inr other ↦ rw (other, without) (put_back-IsLeft x xs (without key xs) (without-IsLeft key xs))
]

drop_item-Within : (key : String) (xs : List QueuedItem) → Within (drop_item key xs) xs
drop_item-Within key [] = done
drop_item-Within key (x ∷ xs) = elim (Bool-cases (is_empty key)) [
  | inl whole ↦ rw (whole, drop_item) (Within-nil (x ∷ xs))
  | inr one ↦ elim (Option-cases (without key (x ∷ xs))) [
    | inl gone ↦ rw (one, drop_item) (rw gone (left_out (Within-self xs)))
    | inr (rest, found) ↦
        rw (one, drop_item) (rw found (subst (IsLeft (x ∷ xs)) found (without-IsLeft key (x ∷ xs))))
  ]
]

pub data Op : Type 0 where
  enqueue_op : String → Time → Op
  remove_op : String → Op

unfoldable pub run : List Op → QueueTracker → QueueTracker
unfolding enqueue remove
run [] q = q
run (enqueue_op key at ∷ os) q = run os (enqueue key at q)
run (remove_op key ∷ os) q = run os (remove key q)

-- What was ever enqueued, in order.
abbrev pub enqueued : List Op → List QueuedItem
enqueued [] = []
enqueued (enqueue_op key at ∷ os) = record { key = key; at = at } ∷ enqueued os
enqueued (remove_op key ∷ os) = enqueued os

record Holds (items : List QueuedItem) (q : QueueTracker) : Type 0 where
  within : Within q.pending items
  bounded : length q.pending ≤ max_pending_queue_items

run-Holds :
    (os : List Op) (items : List QueuedItem) (q : QueueTracker)
    → Holds items q
    → Holds (items ++ enqueued os) (run os q)
unfolding run enqueue remove
run-Holds [] items q h = subst (λ x. Holds x q) (sym (append-nil items)) h
run-Holds (enqueue_op key at ∷ os) items q h =
    let it : QueuedItem = record { key = key; at = at } in
    subst (λ x. Holds x (run os (enqueue key at q))) (append_assoc items (it ∷ []) (enqueued os))
      (run-Holds os (items ++ it ∷ []) (enqueue key at q) (record {
        within =
            Within-trans (keep_newest-Within max_pending_queue_items (q.pending ++ it ∷ []))
              (Within-append (it ∷ []) h.within);
        bounded = length-keep_newest max_pending_queue_items (q.pending ++ it ∷ []);
      }))
run-Holds (remove_op key ∷ os) items q h =
    let w = drop_item-Within key q.pending in
    run-Holds os items (remove key q) (record {
      within = Within-trans w h.within;
      bounded = omega (arith, length-Within w, h.bounded);
    })

-- Whatever is enqueued and removed, the tracker holds at most its limit of items, each of them was
-- enqueued, and they stand in the order in which they were.
run-Within :
    (os : List Op)
    → Within (run os empty_queue).pending (enqueued os)
      × (length (run os empty_queue).pending ≤ max_pending_queue_items)
run-Within os =
    let h = run-Holds os [] empty_queue (record { within = done; bounded = omega arith }) in
    (h.within, h.bounded)
