-- ===== src/Ratelimit.antt =====
-- internal/ratelimit/latest.go: the newest snapshot of the account's usage windows. A percentage
-- is a `float64` in the source; only passed on here, it is any type `P`.
use tatara_claude_code_wrapp.Common.{
  ◌≡◌, ◌≤◌, ◌&&◌, not, refl, sym, ap, ◌∙◌, Bool, true, false, List, [], ◌∷◌, Time, after,
  if◌then◌else◌, arith, inl, inr, Bool-cases,
}
use mathlib.Core.List.{Memᴰ}
use mathlib.Core.Path.{subst}

pub record Snapshot (P : Type 0) : Type 0 where
  pub observed_at : Time
  pub five_hour_percent : P
  pub five_hour_reset : Time
  pub weekly_percent : P
  pub weekly_reset : Time

-- `snap` is meaningful once `is_set`.
pub record Latest (P : Type 0) : Type 0 where
  pub snap : Snapshot P
  pub is_set : Bool

module _ {P : Type 0} where
  unfoldable pub set : Snapshot P → Latest P → Latest P
  set s l =
      if l.is_set && not (after s.observed_at l.snap.observed_at)
      then l
      else record { snap = s; is_set = true }

  unfoldable pub get : Latest P → Snapshot P × Bool
  get l = (l.snap, l.is_set)

  pub set_all : List (Snapshot P) → Latest P → Latest P
  set_all [] l = l
  set_all (s ∷ ss) l = set_all ss (set s l)

  -- The first of the newest, by one pass over the arrivals.
  pub newest : Snapshot P → List (Snapshot P) → Snapshot P
  newest best [] = best
  newest best (s ∷ ss) = newest (if after s.observed_at best.observed_at then s else best) ss

  abbrev pub AllAtMost : Time → List (Snapshot P) → Type 0
  AllAtMost t [] = Unit
  AllAtMost t (s ∷ ss) = (s.observed_at ≤ t) × AllAtMost t ss

  newest-ge :
      (best : Snapshot P) (ss : List (Snapshot P)) → best.observed_at ≤ (newest best ss).observed_at
  unfolding newest
  newest-ge best [] = omega arith
  newest-ge best (s ∷ ss) = elim (Bool-cases (after s.observed_at best.observed_at)) [
    | inl later ↦ rw (later, newest) (ground (arith, newest-ge s ss))
    | inr not_later ↦ rw (not_later, newest) (newest-ge best ss)
  ]

  newest_skip :
      (best s : Snapshot P) (ss : List (Snapshot P))
      → after s.observed_at best.observed_at ≡ true
      → newest s ss ≡ newest best (s ∷ ss)
  unfolding newest
  newest_skip best s ss e = rw e

  newest_keep :
      (best s : Snapshot P) (ss : List (Snapshot P))
      → after s.observed_at best.observed_at ≡ false
      → newest best ss ≡ newest best (s ∷ ss)
  unfolding newest
  newest_keep best s ss e = rw e

  newest_all :
      (best : Snapshot P) (ss : List (Snapshot P)) → AllAtMost (newest best ss).observed_at ss
  unfolding newest
  newest_all best [] = tt
  newest_all best (s ∷ ss) = elim (Bool-cases (after s.observed_at best.observed_at)) [
    | inl later ↦
        subst (λ x. AllAtMost x.observed_at (s ∷ ss)) (newest_skip best s ss later)
          (newest-ge s ss, newest_all s ss)
    | inr not_later ↦
        subst (λ x. AllAtMost x.observed_at (s ∷ ss)) (newest_keep best s ss not_later)
          (ground (arith, newest-ge best ss), newest_all best ss)
  ]

  set_all-newest :
      (best : Snapshot P) (ss : List (Snapshot P))
      → set_all ss (record { snap = best; is_set = true })
        ≡ record { snap = newest best ss; is_set = true }
  unfolding set_all newest set
  set_all-newest best [] = refl
  set_all-newest best (s ∷ ss) = elim (Bool-cases (after s.observed_at best.observed_at)) [
    | inl later ↦ rw (later) (set_all-newest s ss)
    | inr not_later ↦ rw (not_later) (set_all-newest best ss)
  ]

  newest-mem : (best : Snapshot P) (ss : List (Snapshot P)) → Memᴰ (newest best ss) (best ∷ ss)
  unfolding newest
  newest-mem best [] = Memᴰ.head refl
  newest-mem best (s ∷ ss) = elim (Bool-cases (after s.observed_at best.observed_at)) [
    | inl later ↦ rw (later, newest) (Memᴰ.tail (newest-mem s ss))
    | inr not_later ↦ rw (not_later, newest) (skip (newest-mem best ss))
  ]
    where
      skip : {x : Snapshot P} → Memᴰ x (best ∷ ss) → Memᴰ x (best ∷ s ∷ ss)
      skip (Memᴰ.head e) = Memᴰ.head e
      skip (Memᴰ.tail m) = Memᴰ.tail (Memᴰ.tail m)

  set_unset :
      (l : Latest P) (s : Snapshot P)
      → l.is_set ≡ false
      → set s l ≡ record { snap = s; is_set = true }
  unfolding set
  set_unset l s e = rw e

  get-set_all :
      (l : Latest P) (s : Snapshot P) (ss : List (Snapshot P))
      → l.is_set ≡ false
      → get (set_all (s ∷ ss) l) ≡ (newest s ss, true)
  unfolding get set_all
  get-set_all l s ss e = ap get (ap (set_all ss) (set_unset l s e) ∙ set_all-newest s ss)

  -- Whatever the order of arrival, an empty holder that is given snapshots ends up set, and holds
  -- one of those given, that none of them is newer than.
  pub set_all_newest_wins :
      (l : Latest P) (s : Snapshot P) (ss : List (Snapshot P))
      → l.is_set ≡ false
      → ((get (set_all (s ∷ ss) l)).1 ≡ true)
        × Memᴰ (get (set_all (s ∷ ss) l)).0 (s ∷ ss)
        × AllAtMost (get (set_all (s ∷ ss) l)).0.observed_at (s ∷ ss)
  set_all_newest_wins l s ss e =
      subst
        (λ (x : Snapshot P × Bool).
          (x.1 ≡ true) × Memᴰ x.0 (s ∷ ss) × AllAtMost x.0.observed_at (s ∷ ss))
        (sym (get-set_all l s ss e)) (refl, newest-mem s ss, (newest-ge s ss, newest_all s ss))
