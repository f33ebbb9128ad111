-- ===== src/Tests/Attempts.antt =====
-- An actor with two retries, and a policy from 100ms to 1s.
use taskvisor.Prelude.{
  ℕ, ◌+◌, ◌*◌, ◌/◌, ◌^◌, ◌≤◌, ◌<◌, ◌≡◌, ◌≢◌, ◌⊎◌, refl, min, Bool, true, false, ◌==◌, if◌then◌else◌,
  Option, some, [], ◌∷◌, arith,
}
use taskvisor.Actor.{
  on_failure, fail, fatal, AttemptFailure, attempt_failed, granted, Turn, Params, going, exited,
  died, start, run, turn, drop_guards, begin_attempt, is_retryable, is_fatal,
}
use taskvisor.Actor.Streak.{streak, Tallied, IsQuiet, run-streak, run-start-IsQuiet}
use taskvisor.Actor.Exits.{Fails, Spent, run_exhausts, turn_fatal}
use taskvisor.Backoff.{BackoffPolicy, equal, equal_jitter, millisecond, delay_for_retry}
use taskvisor.Backoff.Bounds.{IsUniform, IsValid, equal_jitter-bounds, delay_for_retry-bounds}
use taskvisor.Backoff.Spacing.{delay_for_retry_spaced}

abbrev params : Params
params = record { restart = on_failure; delay_for_retry = λ n. n + 1; max_retries = some 2 }

abbrev failure : AttemptFailure
failure = record { error = fail; reason = 3; exit_code = some 1; cleanup_panicked = false }

abbrev failing : Turn
failing = record {
  cancelled_first = false;
  acquire = granted;
  cancelled_second = false;
  result = attempt_failed failure;
  drop_panics = false;
  poisoned = false;
  elapsed = 10;
  slept = true;
  cancelled_last = false;
}

abbrev deadly : AttemptFailure
deadly = record failure { error = fatal }

failing-Fails : Fails failing
unfolding is_retryable
failing-Fails = record {
  failure = failure;
  fails = refl;
  retryable = refl;
  clean = refl;
  dropped = refl;
  first = refl;
  second = refl;
  acquired = refl;
  slept = refl;
}

run-streak_example :
    Tallied
      (streak (failing ∷ failing ∷ []) 0)
      params.max_retries
      (run params (failing ∷ failing ∷ []) (going start))
run-streak_example = run-streak params (failing ∷ failing ∷ [])

run-start-IsQuiet_example : IsQuiet (run params (failing ∷ failing ∷ []) (going start))
run-start-IsQuiet_example = run-start-IsQuiet params (failing ∷ failing ∷ [])

run_exhausts_example : Spent 2 3 (run params (failing ∷ failing ∷ failing ∷ []) (going start))
run_exhausts_example =
    run_exhausts params 2 (failing ∷ failing ∷ failing ∷ []) refl refl (omega arith)
      (failing-Fails, (failing-Fails, (failing-Fails, tt))) refl

turn_fatal_example :
    turn params (record failing { result = attempt_failed deadly }) start
    ≡ exited (died 3 (some 1)) (drop_guards (begin_attempt start))
unfolding is_fatal
turn_fatal_example =
    turn_fatal params (record failing { result = attempt_failed deadly }) start deadly refl refl
      refl refl refl refl

abbrev lowest : ℕ → ℕ → ℕ
lowest low high = low

lowest-IsUniform : IsUniform lowest
lowest-IsUniform low high h = (omega arith, h)

-- Doubling, by hand.
abbrev doubled : ℕ → ℕ → ℕ → Option ℕ
doubled first factor index = some (first * 2 ^ index)

abbrev policy : BackoffPolicy ℕ
policy = record { jitter = equal; first = 100000000; floor = 0; ceiling = 1000000000; factor = 2 }

policy-IsValid : IsValid policy
policy-IsValid = record { first-le = omega arith; floor-le = omega arith; fits = omega arith }

delay_for_retry-bounds_example :
    (0 ≤ delay_for_retry doubled lowest policy 5)
    × (delay_for_retry doubled lowest policy 5 ≤ 1000000000)
delay_for_retry-bounds_example =
    delay_for_retry-bounds doubled lowest policy 5 lowest-IsUniform policy-IsValid

doubled_positive : doubled policy.first policy.factor 5 ≢ some 0
doubled_positive h = absurd (ground (arith, h))

delay_for_retry_spaced_example :
    ((policy.first ≡ 0) × (delay_for_retry doubled lowest policy 5 ≡ policy.floor))
    ⊎ ((0 < policy.first)
        × (min millisecond policy.ceiling ≤ delay_for_retry doubled lowest policy 5))
delay_for_retry_spaced_example =
    delay_for_retry_spaced doubled lowest policy 5 policy-IsValid (λ h. doubled_positive)

equal_jitter-bounds_example : (501 / 2 ≤ equal_jitter lowest 501) × (equal_jitter lowest 501 ≤ 501)
equal_jitter-bounds_example = equal_jitter-bounds lowest 501 lowest-IsUniform (omega arith)

abbrev at_least_one : ℕ → Bool
at_least_one factor = if factor == 0 then false else true
