-- ===== src/Webhook/Laws.antt =====
-- internal/webhook/webhook.go: when a callback is delivered, how often it is tried, and the waits.
use mathlib.Core.Path.{subst}
use tatara_claude_code_wrapp.Common.{
  ℕ, zero, suc, ◌+◌, ◌^◌, ◌≤◌, ◌<◌, ◌≡◌, ◌↔◌, ◌⊎◌, refl, true, false, arith, length, All,
  Bool-cases, inl, inr,
}
use tatara_claude_code_wrapp.Common.Int.{pos}
use tatara_claude_code_wrapp.Webhook.{Network, ok, deliver_from, next_backoff, max_backoff, deliver}

-- Some attempt of the first `left + 1` from `a` on succeeds, and no wait before it is cancelled.
abbrev pub Reaches : Network → ℕ → ℕ → Type 0
Reaches net left a =
    (k : ℕ) × (k ≤ left)
    × (net.posted (a + k) ≡ true)
    × ((j : ℕ) → j < k → net.cancelled (a + j) ≡ false)

module _ (net : Network) where
  Reaches-now : (left a : ℕ) → net.posted a ≡ true → Reaches net left a
  Reaches-now left a e = (0, omega arith, ground (arith, e), λ j h. absurd (omega arith))

  Reaches-later :
      (left a : ℕ) → net.cancelled a ≡ false → Reaches net left (a + 1) → Reaches net (suc left) a
  Reaches-later left a c (k, le, e, before) =
      (suc k, omega arith, subst (λ n. net.posted n ≡ true) (shift k) e, clear)
    where
      shift : (j : ℕ) → a + 1 + j ≡ a + suc j
      shift j = omega arith

      clear : (j : ℕ) → j < suc k → net.cancelled (a + j) ≡ false
      clear zero h = subst (λ n. net.cancelled n ≡ false) (omega arith) c
      clear (suc j) h = subst (λ n. net.cancelled n ≡ false) (shift j) (before j (omega arith))

  Reaches-on :
      (left a : ℕ)
      → net.posted a ≡ false
      → Reaches net (suc left) a
      → (net.cancelled a ≡ false) × Reaches net left (a + 1)
  Reaches-on left a e (zero, le, hit, before) = absurd (ground (arith, e, hit))
  Reaches-on left a e (suc k, le, hit, before) = (
    subst (λ n. net.cancelled n ≡ false) (omega arith) (before 0 (omega arith)),
    (
      k,
      omega arith,
      subst (λ n. net.posted n ≡ true) (shift k) hit,
      λ j h. subst (λ n. net.cancelled n ≡ false) (shift j) (before (suc j) (omega arith)),
    ),
  )
    where
      shift : (j : ℕ) → a + suc j ≡ a + 1 + j
      shift j = omega arith

  delivered-Reaches :
      (left a backoff : ℕ) → (deliver_from net left a backoff).outcome ≡ ok → Reaches net left a
  unfolding deliver_from
  delivered-Reaches zero a backoff e = Reaches-now 0 a (ground (arith, e))
  delivered-Reaches (suc left) a backoff e = elim (Bool-cases (net.posted a)) [
    | inl hit ↦ Reaches-now (suc left) a hit
    | inr miss ↦
        Reaches-later left a (ground (arith, e, miss))
          (delivered-Reaches left (a + 1) (next_backoff backoff) (ground (arith, e, miss)))
  ]

  Reaches-delivered :
      (left a backoff : ℕ) → Reaches net left a → (deliver_from net left a backoff).outcome ≡ ok
  unfolding deliver_from
  Reaches-delivered zero a backoff (zero, le, hit, before) = ground (arith, hit)
  Reaches-delivered zero a backoff (suc k, le, hit, before) = absurd (omega (arith, le))
  Reaches-delivered (suc left) a backoff r = elim (Bool-cases (net.posted a)) [
    | inl hit ↦ ground (arith, hit)
    | inr miss ↦
        let (c, on) = Reaches-on left a miss r in
        ground (arith, miss, c, Reaches-delivered left (a + 1) (next_backoff backoff) on)
  ]

  counts :
      (left a backoff : ℕ)
      → let d = deliver_from net left a backoff in
        (d.attempts ≤ left + 1) × (d.attempts ≡ length d.waits + 1)
  unfolding deliver_from
  counts zero a backoff = ground arith
  counts (suc left) a backoff = ground (arith, counts left (a + 1) (next_backoff backoff))

-- A wait that is not the configured one.
abbrev pub IsBounded : ℕ → Type 0
IsBounded w = (0 < w) × (w ≤ max_backoff)

next_backoff-IsBounded : (b : ℕ) → 0 < b → b < 2 ^ 62 → IsBounded (next_backoff b)
unfolding next_backoff
next_backoff-IsBounded b p h = ground arith

waits-All :
    (net : Network) (P : ℕ → Type 0) (left a backoff : ℕ)
    → ((b : ℕ) → IsBounded b → P b)
    → P backoff
    → 0 < backoff
    → backoff < 2 ^ 62
    → All P (deliver_from net left a backoff).waits
unfolding deliver_from
waits-All net P zero a backoff each now p h = elim (Bool-cases (net.posted a)) [
  | inl hit ↦ rw (hit, deliver_from) tt
  | inr miss ↦ rw (miss, deliver_from) tt
]
waits-All net P (suc left) a backoff each now p h = elim (Bool-cases (net.posted a)) [
  | inl hit ↦ rw (hit, deliver_from) tt
  | inr miss ↦ elim (Bool-cases (net.cancelled a)) [
    | inl gone ↦ rw (miss, deliver_from) (rw gone tt)
    | inr on ↦
        let b = next_backoff-IsBounded backoff p h in
        rw (miss, deliver_from)
          (rw on (
            now,
            waits-All net P left (a + 1) (next_backoff backoff) each (each (next_backoff backoff) b)
                b.0 (omega (arith, b.1)),
          ))
  ]
]

-- A callback is delivered exactly if one of the first attempts, as many as the retries and one more,
-- is answered before a wait is cancelled.
pub deliver_iff :
    (net : Network) (n backoff : ℕ)
    → ((deliver net (record { retries = pos n; backoff = backoff })).outcome ≡ ok) ↔ Reaches net n 0
unfolding deliver
deliver_iff net n backoff = (delivered-Reaches net n 0 backoff, Reaches-delivered net n 0 backoff)

-- With a first backoff above 0 and below 2 ^ 62, a delivery makes at most one attempt more than the
-- retries, with one wait between two of them; each wait is the first backoff or at most the maximal
-- one, and never 0 or less, so that the doubling never wraps around.
pub deliver-IsBounded :
    (net : Network) (n backoff : ℕ)
    → 0 < backoff
    → backoff < 2 ^ 62
    → let d = deliver net (record { retries = pos n; backoff = backoff }) in
      (d.attempts ≤ n + 1)
      × (d.attempts ≡ length d.waits + 1)
      × All (λ w. (w ≡ backoff) ⊎ IsBounded w) d.waits
unfolding deliver
deliver-IsBounded net n backoff p h =
    let c = counts net n 0 backoff in
    (
      c.0,
      c.1,
      waits-All net (λ w. (w ≡ backoff) ⊎ IsBounded w) n 0 backoff (λ b i. inr i) (inl refl) p h,
    )
