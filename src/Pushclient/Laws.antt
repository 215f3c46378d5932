-- ===== src/Pushclient/Laws.antt =====
-- internal/pushclient/pushclient.go: the whole life of a pusher.
use mathlib.Core.List.{append-nil, append_assoc}
use tatara_claude_code_wrapp.Common.{
  ℕ, suc, ◌+◌, ◌≡◌, refl, sym, ap, ◌∙◌, Bool, true, false, List, [], ◌∷◌, ◌++◌, Option, none, some,
  String, if◌then◌else◌, if_holds, length, length-append, arith,
}
use tatara_claude_code_wrapp.Pushclient.{
  Config, enabled, endpoint, Reads, Result, encode_fail, Request, push, delete, Pusher, result_of,
  counted, send, encode, allowlisted, push_body, push_once, push_all, delete_series, start,
  shutdown, new, with_defaults,
}
use tatara_claude_code_wrapp.Pushclient.Own.{
  IsOwnBody, encode-IsOwn, Posts, done, posts, without_body, without_request,
}

add_zero : (n : ℕ) → n + 0 ≡ n
add_zero n = omega arith

add_suc : (n k : ℕ) → n + suc k ≡ suc n + k
add_suc n k = omega arith

module _ (encode_query : List (String × String) → String) (cfg : Config) (metrics : Bool) where
  abbrev address : String
  address = endpoint encode_query (with_defaults cfg)

  -- After so many tries.
  record Pushed (n : ℕ) (p : Pusher) : Type 0 where
    configured : p.cfg ≡ with_defaults cfg
    metered : p.metrics ≡ metrics
    labels : length p.pushes ≡ (if p.metrics then n else 0)

  counted_labels :
      (n : ℕ) (r : Result) (p : Pusher)
      → length p.pushes ≡ (if p.metrics then n else 0)
      → length (counted r p).pushes ≡ (if p.metrics then suc n else 0)
  counted_labels n r p e = ground (arith, length-append p.pushes (r ∷ []))

  counted_same :
      (r : Result) (p : Pusher)
      → ((counted r p).cfg ≡ p.cfg)
        × ((counted r p).metrics ≡ p.metrics)
        × ((counted r p).requests ≡ p.requests)
  counted_same r p = (ground arith, ground arith, ground arith)

  counted-Pushed : (n : ℕ) (r : Result) (p : Pusher) → Pushed n p → Pushed (suc n) (counted r p)
  counted-Pushed n r p h =
      let same = counted_same r p in
      record {
        configured = same.0 ∙ h.configured;
        metered = same.1 ∙ h.metered;
        labels = counted_labels n r p h.labels ∙ ap (λ b. if b then suc n else 0) (sym same.1);
      }

  push_body-Pushed :
      (n : ℕ) (x : Reads) (body : Option String) (p : Pusher)
      → Pushed n p
      → Pushed (suc n) (push_body encode_query x body p)
  push_body-Pushed n x none p h = counted-Pushed n encode_fail p h
  push_body-Pushed n x (some body) p h =
      if_holds (Pushed (suc n)) x.makes_request _ _
        (λ _.
          counted-Pushed n (result_of x.answer) _
            (record { configured = h.configured; metered = h.metered; labels = h.labels }))
        (λ _. counted-Pushed n encode_fail p h)

  push_once-Pushed :
      (n : ℕ) (x : Reads) (p : Pusher) → Pushed n p → Pushed (suc n) (push_once encode_query x p)
  unfolding push_once
  push_once-Pushed n x p h = push_body-Pushed n x _ p h

  push_all-Pushed :
      (xs : List Reads) (n : ℕ) (p : Pusher)
      → Pushed n p
      → Pushed (n + length xs) (push_all encode_query xs p)
  unfolding push_all
  push_all-Pushed [] n p h = rw (add_zero n) h
  push_all-Pushed (x ∷ xs) n p h =
      rw (add_suc n (length xs))
        (push_all-Pushed xs (suc n) (push_once encode_query x p) (push_once-Pushed n x p h))

  -- What one try adds to the requests, and to what the tries behind it send.
  record Tried (x : Reads) (p q : Pusher) : Type 0 where
    one : List Request
    added : q.requests ≡ p.requests ++ one
    extends :
        (xs : List Reads) (rs : List Request)
        → Posts address xs rs
        → Posts address (x ∷ xs) (one ++ rs)

  unsent-Tried :
      (x : Reads) (r : Result) (p : Pusher)
      → ((xs : List Reads) (rs : List Request) → Posts address xs rs → Posts address (x ∷ xs) rs)
      → Tried x p (counted r p)
  unsent-Tried x r p skips = record {
    one = [];
    added = (counted_same r p).2 ∙ sym (append-nil p.requests);
    extends = skips;
  }

  push_body-Tried :
      (x : Reads) (body : Option String) (p : Pusher)
      → p.cfg ≡ with_defaults cfg
      → IsOwnBody x.gathered body
      → Tried x p (push_body encode_query x body p)
  push_body-Tried x none p e b = unsent-Tried x encode_fail p (λ xs rs h. without_body x xs rs b h)
  push_body-Tried x (some body) p e b =
      if_holds (Tried x p) x.makes_request _ _
        (λ made. record {
          one = push address body ∷ [];
          added =
              (counted_same (result_of x.answer)
                (send (push (endpoint encode_query p.cfg) body) p)).2
              ∙ ap (λ c. p.requests ++ push (endpoint encode_query c) body ∷ []) e;
          extends = λ xs rs h. posts x xs body rs b made h;
        })
        (λ unmade. unsent-Tried x encode_fail p (λ xs rs h. without_request x xs rs unmade h))

  -- All that a list of tries adds.
  record Sent (xs : List Reads) (p q : Pusher) : Type 0 where
    all : List Request
    added : q.requests ≡ p.requests ++ all
    own : Posts address xs all

  push_all-Sent :
      (xs : List Reads) (n : ℕ) (p : Pusher) → Pushed n p → Sent xs p (push_all encode_query xs p)
  unfolding push_all push_once
  push_all-Sent [] n p h = record { all = []; added = sym (append-nil p.requests); own = done }
  push_all-Sent (x ∷ xs) n p h =
      let now =
        push_body-Tried x (encode (allowlisted x.gathered)) p h.configured
          (encode-IsOwn x.gathered) in
      let rest = push_all-Sent xs (suc n) (push_once encode_query x p) (push_once-Pushed n x p h) in
      record {
        all = now.one ++ rest.all;
        added =
            rest.added
            ∙ ap (λ rs. rs ++ rest.all) now.added
            ∙ append_assoc p.requests now.one rest.all;
        own = now.extends xs rest.all rest.own;
      }

  abbrev pub life : Reads → List Reads → Bool → Pusher
  life first ticks makes_request =
      shutdown encode_query makes_request (start encode_query first ticks (new cfg metrics))

  abbrev pub delete_if : Bool → List Request
  delete_if makes_request =
      if makes_request then delete (endpoint encode_query (with_defaults cfg)) ∷ [] else []

  -- All that a life sends: what its tries send, and the delete behind them.
  pub record Sends (tries : List Reads) (requests : List Request) (makes_request : Bool)
      : Type 0 where
    pub pushed : List Request
    pub in_order : requests ≡ pushed ++ delete_if makes_request
    pub own : Posts (endpoint encode_query (with_defaults cfg)) tries pushed

  deleted :
      (makes_request : Bool) (n : ℕ) (p : Pusher)
      → Pushed n p
      → (delete_series encode_query makes_request p).requests
        ≡ p.requests ++ delete_if makes_request
  unfolding delete_series
  deleted true n p h = ap (λ c. p.requests ++ delete (endpoint encode_query c) ∷ []) h.configured
  deleted false n p h = sym (append-nil p.requests)

  delete_series_pushes :
      (makes_request : Bool) (p : Pusher)
      → (delete_series encode_query makes_request p).pushes ≡ p.pushes
  unfolding delete_series
  delete_series_pushes true p = refl
  delete_series_pushes false p = refl

  start_on :
      (first : Reads) (ticks : List Reads) (p : Pusher)
      → enabled p.cfg ≡ true
      → start encode_query first ticks p ≡ push_all encode_query (first ∷ ticks) p
  unfolding start
  start_on first ticks p on = rw on refl

  start_off :
      (first : Reads) (ticks : List Reads) (p : Pusher)
      → enabled p.cfg ≡ false
      → start encode_query first ticks p ≡ p
  unfolding start
  start_off first ticks p off = rw off refl

  shutdown_on :
      (makes_request : Bool) (p : Pusher)
      → enabled p.cfg ≡ true
      → shutdown encode_query makes_request p ≡ delete_series encode_query makes_request p
  unfolding shutdown
  shutdown_on makes_request p on = rw on refl

  shutdown_off :
      (makes_request : Bool) (p : Pusher)
      → enabled p.cfg ≡ false
      → shutdown encode_query makes_request p ≡ p
  unfolding shutdown
  shutdown_off makes_request p off = rw off refl

  still_enabled : enabled (with_defaults cfg) ≡ enabled cfg
  unfolding enabled with_defaults
  still_enabled = refl

  no_labels : length {A = Result} [] ≡ (if metrics then 0 else 0)
  no_labels = ground arith

  all_labels :
      (n : ℕ) (p : Pusher)
      → p.metrics ≡ metrics
      → (if p.metrics then 0 + suc n else 0) ≡ (if metrics then suc n else 0)
  all_labels n p e = ground arith

  -- A pusher with an address and a run id, started and then shut down behind any number of ticks, sends
  -- for each try, in order, a push of exactly what was gathered of the families with the wrapper's
  -- prefixes, if that can be encoded and its request made, and nothing else; and the delete behind all
  -- of them, if its request can be made. With a counter, each try is counted once, the one at the start
  -- too, and without one none is.
  pub life-Sends :
      (first : Reads) (ticks : List Reads) (makes_request : Bool)
      → enabled cfg ≡ true
      → Sends (first ∷ ticks) (life first ticks makes_request).requests makes_request
        × (length (life first ticks makes_request).pushes
            ≡ (if metrics then suc (length ticks) else 0))
  life-Sends first ticks makes_request on =
      let p = push_all encode_query (first ∷ ticks) (new cfg metrics) in
      let h =
        push_all-Pushed (first ∷ ticks) 0 (new cfg metrics)
          (record { configured = refl; metered = refl; labels = no_labels }) in
      let sent =
        push_all-Sent (first ∷ ticks) 0 (new cfg metrics)
          (record { configured = refl; metered = refl; labels = no_labels }) in
      rw (start_on first ticks (new cfg metrics) (still_enabled ∙ on)) (
        rw (shutdown_on makes_request p (ap enabled h.configured ∙ still_enabled ∙ on)) (
          record {
            pushed = sent.all;
            in_order =
                deleted makes_request _ p h ∙ ap (λ rs. rs ++ delete_if makes_request) sent.added;
            own = sent.own;
          },
          ap length (delete_series_pushes makes_request p)
              ∙ h.labels
              ∙ all_labels (length ticks) p h.metered,
        ))

  -- Without an address or a run id nothing is sent.
  pub disabled_life :
      (first : Reads) (ticks : List Reads) (makes_request : Bool)
      → enabled cfg ≡ false
      → (life first ticks makes_request).requests ≡ []
  disabled_life first ticks makes_request off =
      ap (λ q. (shutdown encode_query makes_request q).requests)
        (start_off first ticks (new cfg metrics) (still_enabled ∙ off))
      ∙ ap (λ (q : Pusher). q.requests)
          (shutdown_off makes_request (new cfg metrics) (still_enabled ∙ off))
