-- ===== src/Backoff/Spacing.antt =====
-- How close two retries of src/policies/backoff.rs may come.
use taskvisor.Prelude.{
  ℕ, ◌≤◌, ◌<◌, ◌≡◌, ◌≢◌, ◌⊎◌, inl, inr, zero, suc, min, false, Option, none, some, refl, arith,
  Bool-cases, ◌==◌,
}
use taskvisor.Backoff.{
  JitterPolicy, exact, full, equal, randomized_band, millisecond, saturating_mul, full_jitter,
  equal_jitter, apply, apply_randomized_band, BackoffPolicy, base_delay, jittered, delay_for_retry,
  capped,
}
use taskvisor.Backoff.Bounds.{IsValid}

capped-positive :
    (top : ℕ) (product : Option ℕ) → product ≢ some 0 → 0 < top → 0 < capped top product
capped-positive top none h k = k
capped-positive top (some zero) h k = absurd (h refl)
capped-positive top (some (suc n)) h k = omega (arith, k)

-- A delay of zero is not jittered.
jittered-zero :
    {Factor : Type 0} (random : ℕ → ℕ → ℕ) (p : BackoffPolicy Factor)
    → p.first ≡ 0
    → jittered random p 0 ≡ 0
unfolding apply full_jitter equal_jitter apply_randomized_band saturating_mul
jittered-zero random p e = by_jitter p.jitter
  where
    by_jitter : (j : JitterPolicy) → jittered random (record p { jitter = j }) 0 ≡ 0
    by_jitter exact = refl
    by_jitter full = refl
    by_jitter equal = refl
    by_jitter randomized_band = ground (arith, e)

-- Under a valid policy, in whatever attempt and whatever the random draw: with a first delay of zero
-- a retry waits exactly the floor; with any other, and when the product is not rounded to zero, it
-- waits at least the safety floor of 1ms, or the cap when that is lower.
pub delay_for_retry_spaced :
    {Factor : Type 0} (scaled : ℕ → Factor → ℕ → Option ℕ) (random : ℕ → ℕ → ℕ)
    (p : BackoffPolicy Factor) (index : ℕ)
    → IsValid p
    → (0 < p.first → scaled p.first p.factor index ≢ some 0)
    → ((p.first ≡ 0) × (delay_for_retry scaled random p index ≡ p.floor))
      ⊎ ((0 < p.first) × (min millisecond p.ceiling ≤ delay_for_retry scaled random p index))
unfolding delay_for_retry base_delay
delay_for_retry_spaced scaled random p index v product = elim (Bool-cases (p.first == 0)) [
  | inl e ↦ inl (
    ground (arith, e),
    simp (e) (simp (jittered-zero random p (ground (arith, e))) (omega arith)),
  )
  | inr e ↦
      let positive : 0 < p.first = ground (arith, e) in
      let base : (capped p.ceiling (scaled p.first p.factor index) == 0) ≡ false = ground (
        arith,
        capped-positive p.ceiling (scaled p.first p.factor index) (product positive)
            (omega (arith, positive, v.first-le)),
      ) in
      inr (positive, simp (e) (simp (base) (omega arith)))
]
