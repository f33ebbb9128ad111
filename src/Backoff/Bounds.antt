-- ===== src/Backoff/Bounds.antt =====
-- Bounds of the delays of src/policies/backoff.rs and src/policies/jitter.rs.
use taskvisor.Prelude.{
  ℕ, ◌+◌, ◌-◌, ◌*◌, ◌/◌, ◌≤◌, ◌≡◌, min, max, Bool, true, false, Option, refl, arith, ltb, ◌==◌,
  if◌then◌else◌,
}
use taskvisor.Backoff.{
  JitterPolicy, exact, full, equal, randomized_band, first_exceeds_max, invalid_factor, millisecond,
  duration_max, duration_from_nanos, saturating_mul, full_jitter, equal_jitter, apply, draw_band,
  apply_randomized_band, BackoffPolicy, Built, built, rejected, new, deterministic, base_delay,
  jittered, delay_for_retry,
}

-- What `fastrand::u128(low..=high)` promises.
abbrev pub IsUniform : (ℕ → ℕ → ℕ) → Type 0
IsUniform random = (low high : ℕ) → low ≤ high → (low ≤ random low high) × (random low high ≤ high)

duration_from_nanos_small : (n : ℕ) → n ≤ duration_max → duration_from_nanos n ≡ n
unfolding duration_from_nanos
duration_from_nanos_small n h = omega arith

full_jitter-le :
    (random : ℕ → ℕ → ℕ) (delay : ℕ)
    → IsUniform random
    → delay ≤ duration_max
    → full_jitter random delay ≤ delay
unfolding full_jitter
full_jitter-le random delay u h =
    ground (arith, duration_from_nanos_small (random 0 delay), u 0 delay)

-- Equal jitter of a delay that is a `Duration` lies between half of the delay and the delay, when
-- the random draw lies within its range.
pub equal_jitter-bounds :
    (random : ℕ → ℕ → ℕ) (delay : ℕ)
    → IsUniform random
    → delay ≤ duration_max
    → (delay / 2 ≤ equal_jitter random delay) × (equal_jitter random delay ≤ delay)
unfolding equal_jitter
equal_jitter-bounds random delay u h = ground (
  arith,
  duration_from_nanos_small (delay / 2 + random 0 (delay - delay / 2)),
  u 0 (delay - delay / 2),
)

-- Jitter without band never lengthens the delay.
apply-le :
    (random : ℕ → ℕ → ℕ) (jitter : JitterPolicy) (delay : ℕ)
    → IsUniform random
    → delay ≤ duration_max
    → apply random jitter delay ≤ delay
unfolding apply
apply-le random exact delay u h = omega arith
apply-le random full delay u h = full_jitter-le random delay u h
apply-le random randomized_band delay u h = full_jitter-le random delay u h
apply-le random equal delay u h = (equal_jitter-bounds random delay u h).1

draw_band-bounds :
    (random : ℕ → ℕ → ℕ) (lower upper : ℕ)
    → IsUniform random
    → lower ≤ upper
    → upper ≤ duration_max
    → (lower ≤ draw_band random lower upper) × (draw_band random lower upper ≤ upper)
draw_band-bounds random lower upper u h k =
    ground (arith, duration_from_nanos_small (random lower upper), u lower upper)

pub apply_randomized_band-bounds :
    (random : ℕ → ℕ → ℕ) (lower seed top : ℕ)
    → IsUniform random
    → top ≤ duration_max
    → let drawn = apply_randomized_band random randomized_band lower seed top in
      (min lower top ≤ drawn) × (drawn ≤ max (min (seed * 3) top) (min lower top))
unfolding apply_randomized_band saturating_mul
apply_randomized_band-bounds random lower seed top u h =
    let k =
      draw_band-bounds random (min lower top)
        (max (min (saturating_mul seed 3) top) (min lower top)) u (omega arith) (omega arith) in
    (k.0, omega (arith, k.1))

-- A policy that the constructors and the builder methods make.
pub record IsValid {Factor : Type 0} (p : BackoffPolicy Factor) : Type 0 where
  pub first-le : p.first ≤ p.ceiling
  pub floor-le : p.floor ≤ p.ceiling
  pub fits : p.ceiling ≤ duration_max

abbrev pub BuiltValid : {Factor : Type 0} → Built Factor → Type 0
BuiltValid (built p) = IsValid p
BuiltValid (rejected e) = Unit {0}

-- A policy that `new` accepts is valid when the cap is a `Duration`: a first delay above the cap
-- is refused.
pub new-IsValid :
    {Factor : Type 0} (is_valid : Factor → Bool) (first top : ℕ) (factor : Factor)
    (jitter : JitterPolicy)
    → top ≤ duration_max
    → BuiltValid (new is_valid first top factor jitter)
unfolding new
new-IsValid is_valid first top factor jitter h =
    guarded (is_valid factor) (ltb top first) (λ e. ground arith)
  where
    guarded :
        (x y : Bool)
        → (y ≡ false → first ≤ top)
        → BuiltValid (
            if x
            then (if y
                then rejected (first_exceeds_max first top)
                else built (record {
                  jitter = jitter;
                  first = first;
                  floor = 0;
                  ceiling = top;
                  factor = factor;
                }))
            else rejected (invalid_factor factor))
    guarded true true k = tt
    guarded true false k = record { first-le = k refl; floor-le = omega arith; fits = h }
    guarded false y k = tt

deterministic-IsValid :
    {Factor : Type 0} (factor : Factor) (first : ℕ)
    → first ≤ duration_max
    → IsValid (deterministic factor first)
unfolding deterministic
deterministic-IsValid factor first h = record {
  first-le = omega arith;
  floor-le = omega arith;
  fits = omega arith;
}

jittered-le :
    {Factor : Type 0} (random : ℕ → ℕ → ℕ) (p : BackoffPolicy Factor) (base : ℕ)
    → IsUniform random
    → IsValid p
    → base ≤ p.ceiling
    → jittered random p base ≤ p.ceiling
jittered-le random p base u v h = by_jitter p.jitter
  where
    by_jitter : (j : JitterPolicy) → jittered random (record p { jitter = j }) base ≤ p.ceiling
    by_jitter exact = omega (arith, apply-le random exact base u)
    by_jitter full = omega (arith, v, apply-le random full base u (omega (arith, v.fits)))
    by_jitter equal = omega (arith, v, apply-le random equal base u (omega (arith, v.fits)))
    by_jitter randomized_band =
        omega (
          arith,
          apply_randomized_band-bounds random (min p.first p.ceiling) base p.ceiling u v.fits,
        )

base_delay-le :
    {Factor : Type 0} (scaled : ℕ → Factor → ℕ → Option ℕ) (p : BackoffPolicy Factor) (index : ℕ)
    → base_delay scaled p index ≤ p.ceiling
unfolding base_delay
base_delay-le scaled p index = ground arith

-- A retry under a valid policy waits at least the floor and at most the cap, whatever the floating
-- point product is, when the random draw lies within its range.
pub delay_for_retry-bounds :
    {Factor : Type 0} (scaled : ℕ → Factor → ℕ → Option ℕ) (random : ℕ → ℕ → ℕ)
    (p : BackoffPolicy Factor) (index : ℕ)
    → IsUniform random
    → IsValid p
    → (p.floor ≤ delay_for_retry scaled random p index)
      × (delay_for_retry scaled random p index ≤ p.ceiling)
unfolding delay_for_retry
delay_for_retry-bounds scaled random p index u v =
    bounded (base_delay scaled p index == 0)
      (max (jittered random p (base_delay scaled p index)) p.floor) (omega arith)
      (omega (
        arith,
        v.floor-le,
        jittered-le random p (base_delay scaled p index) u v (base_delay-le scaled p index),
      ))
  where
    bounded :
        (x : Bool) (floored : ℕ)
        → p.floor ≤ floored
        → floored ≤ p.ceiling
        → (p.floor ≤ (if x then floored else max floored (min millisecond p.ceiling)))
          × ((if x then floored else max floored (min millisecond p.ceiling)) ≤ p.ceiling)
    bounded true floored h k = (h, k)
    bounded false floored h k = (omega arith, omega arith)
