-- ===== src/Backoff.antt =====
-- src/policies/backoff.rs and src/policies/jitter.rs: retry delays. A `Duration` is its number of
-- nanoseconds. `random` is the draw of `fastrand::u128(low..=high)` that a call makes, and `scaled`
-- is `Duration::try_from_secs_f64(first * factor.powf(index))`: floating point and the random
-- generator are not code of this repository.
pub mod Bounds
pub mod Spacing
use taskvisor.Prelude.{
  ℕ, ◌+◌, ◌-◌, ◌*◌, ◌/◌, ◌%◌, ◌^◌, min, max, Bool, true, false, Option, none, some, ltb, leb, ◌==◌,
  if◌then◌else◌,
}

pub data JitterPolicy : Type 0 where
  exact full equal randomized_band : JitterPolicy

abbrev pub nanos_per_second : ℕ
nanos_per_second = 1000000000

abbrev pub millisecond : ℕ
millisecond = 1000000

-- `Duration::MAX`.
abbrev pub duration_max : ℕ
duration_max = 18446744073709551615999999999

-- `duration_from_nanos`: the seconds are truncated to 64 bits.
unfoldable pub duration_from_nanos : ℕ → ℕ
duration_from_nanos nanos =
    ((nanos / nanos_per_second) % 2 ^ 64) * nanos_per_second + nanos % nanos_per_second

unfoldable pub saturating_mul : ℕ → ℕ → ℕ
saturating_mul delay times = min (delay * times) duration_max

unfoldable pub full_jitter : (ℕ → ℕ → ℕ) → ℕ → ℕ
unfolding duration_from_nanos
full_jitter random delay = if delay == 0 then 0 else duration_from_nanos (random 0 delay)

unfoldable pub equal_jitter : (ℕ → ℕ → ℕ) → ℕ → ℕ
unfolding duration_from_nanos
equal_jitter random delay =
    if delay == 0 then 0 else duration_from_nanos (delay / 2 + random 0 (delay - delay / 2))

unfoldable pub apply : (ℕ → ℕ → ℕ) → JitterPolicy → ℕ → ℕ
unfolding full_jitter equal_jitter
apply random exact delay = delay
apply random full delay = full_jitter random delay
apply random randomized_band delay = full_jitter random delay
apply random equal delay = equal_jitter random delay

abbrev pub draw_band : (ℕ → ℕ → ℕ) → ℕ → ℕ → ℕ
draw_band random lower upper =
    if leb upper lower then lower else duration_from_nanos (random lower upper)

unfoldable pub apply_randomized_band : (ℕ → ℕ → ℕ) → JitterPolicy → ℕ → ℕ → ℕ → ℕ
unfolding duration_from_nanos saturating_mul apply
apply_randomized_band random randomized_band lower upper_seed top =
    draw_band random (min lower top) (max (min (saturating_mul upper_seed 3) top) (min lower top))
apply_randomized_band random jitter lower upper_seed top = apply random jitter (min lower top)

pub record BackoffPolicy (Factor : Type 0) : Type 0 where
  pub jitter : JitterPolicy
  pub first : ℕ
  pub floor : ℕ
  pub ceiling : ℕ
  pub factor : Factor

pub data BackoffError (Factor : Type 0) : Type 0 where
  invalid_factor : Factor → BackoffError Factor
  first_exceeds_max : ℕ → ℕ → BackoffError Factor

pub data Built (Factor : Type 0) : Type 0 where
  built : BackoffPolicy Factor → Built Factor
  rejected : BackoffError Factor → Built Factor

abbrev pub default_max : ℕ
default_max = 30000000000

-- `is_valid factor` is `factor.is_finite() && factor >= 1.0`.
unfoldable pub new :
    {Factor : Type 0} → (is_valid : Factor → Bool) → ℕ → ℕ → Factor → JitterPolicy → Built Factor
new is_valid first top factor jitter =
    if is_valid factor
    then (if ltb top first
        then rejected (first_exceeds_max first top)
        else built
            (record { jitter = jitter; first = first; floor = 0; ceiling = top; factor = factor }))
    else rejected (invalid_factor factor)

-- `constant` and `exponential`: they differ in the factor, 1.0 and 2.0.
unfoldable pub deterministic : {Factor : Type 0} → Factor → ℕ → BackoffPolicy Factor
deterministic factor first = record {
  jitter = exact;
  first = first;
  floor = 0;
  ceiling = max first default_max;
  factor = factor;
}

unfoldable pub with_max : {Factor : Type 0} → BackoffPolicy Factor → ℕ → BackoffPolicy Factor
with_max p top = record p { ceiling = top; first = min p.first top; floor = min p.floor top }

unfoldable pub with_jitter :
    {Factor : Type 0} → BackoffPolicy Factor → JitterPolicy → BackoffPolicy Factor
with_jitter p jitter = record p { jitter = jitter }

unfoldable pub with_floor : {Factor : Type 0} → BackoffPolicy Factor → ℕ → BackoffPolicy Factor
with_floor p floor = record p { floor = min floor p.ceiling }

abbrev pub capped : ℕ → Option ℕ → ℕ
capped top none = top
capped top (some secs) = min secs top

-- The delay before jitter and floors; `scaled` is `none` when the product is no `Duration`.
unfoldable pub base_delay :
    {Factor : Type 0} → (ℕ → Factor → ℕ → Option ℕ) → BackoffPolicy Factor → ℕ → ℕ
base_delay scaled p index =
    if p.first == 0 then 0 else capped p.ceiling (scaled p.first p.factor index)

abbrev pub jittered : {Factor : Type 0} → (ℕ → ℕ → ℕ) → BackoffPolicy Factor → ℕ → ℕ
jittered random p base = by_jitter p.jitter
  where
    by_jitter : JitterPolicy → ℕ
    by_jitter randomized_band =
        apply_randomized_band random randomized_band (min p.first p.ceiling) base p.ceiling
    by_jitter jitter = apply random jitter base

unfoldable pub delay_for_retry :
    {Factor : Type 0} → (ℕ → Factor → ℕ → Option ℕ) → (ℕ → ℕ → ℕ) → BackoffPolicy Factor → ℕ → ℕ
unfolding base_delay apply_randomized_band apply
delay_for_retry scaled random p index =
    let base = base_delay scaled p index in
    let floored = max (jittered random p base) p.floor in
    if base == 0 then floored else max floored (min millisecond p.ceiling)
