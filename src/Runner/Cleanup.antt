-- ===== src/Runner/Cleanup.antt =====
-- src/core/runner.rs with the decision of src/core/actor.rs: a panic in the cleanup of an attempt.
use taskvisor.Prelude.{
  ℕ, ◌≤◌, Bool, true, false, Option, none, some, List, [], ◌∷◌, ◌≡◌, refl, arith,
}
use mathlib.Core.Path.{subst}
use taskvisor.Actor
use taskvisor.Actor.{
  TaskError, timeout, fail, task_canceled, fatal, AttemptFailure, AttemptResult, AttemptDecision,
  cleanup_panic, RestartPolicy, classify_attempt,
}
use taskvisor.Runner.{
  Caught, returns, unwinds, UserError, Poll, Attempt, Run, CaughtFailure, dispose_panic_payload,
  drop_future, settle_ready, settle_panic, Ending, joined, expired, aborted, deadline, abort, drive,
  caught, classify_failure, time_out, conclude, run_once,
}

-- A failure of the panic boundary that reports a panic in cleanup.
abbrev IsPanicked : Option CaughtFailure → Type 0
IsPanicked none = 1 ≤ 0
IsPanicked (some failure) = failure.cleanup_panicked ≡ true

-- The same for the result of the attempt, if there is one.
abbrev EndsPanicked : Option AttemptResult × Run → Type 0
EndsPanicked (none, s) = Unit
EndsPanicked (some Actor.succeeded, s) = 1 ≤ 0
EndsPanicked (some (Actor.attempt_failed f), s) = f.cleanup_panicked ≡ true

abbrev JoinsPanicked : Ending × Run → Type 0
JoinsPanicked (aborted, s) = Unit
JoinsPanicked (expired d, s) = Unit
JoinsPanicked (joined failure, s) = IsPanicked failure

drop_future-Panicked :
    (a : Attempt) (drop : Caught) (payload : Bool) (s : Run)
    → drop ≡ unwinds payload
    → IsPanicked (drop_future a drop s).0
unfolding drop_future
drop_future-Panicked a returns payload s h = cc
drop_future-Panicked a (unwinds other) payload s h = refl

settle_ready-Panicked :
    (a : Attempt) (result : Option UserError) (dropped : Option CaughtFailure × Run)
    → IsPanicked dropped.0
    → IsPanicked (settle_ready a result dropped).0
settle_ready-Panicked a result (none, s) h = ground (arith, h)
settle_ready-Panicked a result (some failure, s) h = h

settle_panic-Panicked :
    (a : Attempt) (poisoned : Bool) (dropped : Option CaughtFailure × Run)
    → IsPanicked dropped.0
    → IsPanicked (settle_panic a poisoned dropped).0
settle_panic-Panicked a true dropped h = refl
settle_panic-Panicked a false (none, s) h = ground (arith, h)
settle_panic-Panicked a false (some failure, s) h = refl

abort-Panicked : (dropped : Option CaughtFailure × Run) → JoinsPanicked (abort dropped)
abort-Panicked (none, s) = tt
abort-Panicked (some failure, s) = tt

module _ (a : Attempt) (payload : Bool) (bad : a.future_drop ≡ unwinds payload) where
  drive-Panicked :
      (limit : Option ℕ) (polls : List Poll) (s : Run) → JoinsPanicked (drive a limit polls s)
  unfolding drive
  drive-Panicked limit [] s = abort-Panicked (drop_future a a.future_drop s)
  drive-Panicked limit (Poll.pending ∷ polls) s = drive-Panicked limit polls s
  drive-Panicked none (Poll.expires ∷ polls) s = drive-Panicked none polls s
  drive-Panicked (some d) (Poll.expires ∷ polls) s = tt
  drive-Panicked limit (Poll.ready result ∷ polls) s =
      settle_ready-Panicked a result _ (drop_future-Panicked a a.future_drop payload s bad)
  drive-Panicked limit (Poll.panics other ∷ polls) s =
      settle_panic-Panicked a (dispose_panic_payload other s).0
        (drop_future a a.future_drop (dispose_panic_payload other s).1)
        (drop_future-Panicked a a.future_drop payload (dispose_panic_payload other s).1 bad)

  time_out-Panicked :
      (d : ℕ) (dropped : Option CaughtFailure × Run)
      → IsPanicked dropped.0
      → EndsPanicked (time_out a d dropped)
  time_out-Panicked d (none, s) h = ground (arith, h)
  time_out-Panicked d (some failure, s) h = h

  classify_failure-Panicked :
      (error : TaskError) (f : AttemptFailure) (s : Run)
      → f.cleanup_panicked ≡ true
      → EndsPanicked (classify_failure error f s)
  classify_failure-Panicked task_canceled f s h = h
  classify_failure-Panicked timeout f s h = h
  classify_failure-Panicked fatal f s h = h
  classify_failure-Panicked fail f s h = h

  conclude-Panicked : (out : Ending × Run) → JoinsPanicked out → EndsPanicked (conclude a out)
  conclude-Panicked (aborted, s) h = tt
  conclude-Panicked (expired d, s) h =
      time_out-Panicked d _
        (drop_future-Panicked a a.future_drop payload (record s { child_cancelled = true }) bad)
  conclude-Panicked (joined none, s) h = ground (arith, h)
  conclude-Panicked (joined (some failure), s) h =
      classify_failure-Panicked failure.error.error (caught failure) s h

  run_once-Panicked : (s : Run) → a.spawn ≡ returns → EndsPanicked (run_once a s)
  unfolding run_once
  run_once-Panicked s spawned = simp (spawned) (
      conclude-Panicked (drive a (deadline a.timeout) a.polls s)
        (drive-Panicked (deadline a.timeout) a.polls s))

panicked-stops :
    (r : AttemptResult) (s : Run) (restart : RestartPolicy) (max_retries : Option ℕ)
    (backoff_attempt : ℕ) (drop_panics : Bool)
    → EndsPanicked (some r, s)
    → classify_attempt r restart max_retries backoff_attempt drop_panics ≡ cleanup_panic
unfolding classify_attempt
panicked-stops Actor.succeeded s restart max_retries backoff_attempt drop_panics h =
    ground (arith, h)
panicked-stops (Actor.attempt_failed f) s restart max_retries backoff_attempt drop_panics h =
    simp (h) refl

-- When the destructor of the future unwinds, whatever its polls did before, a finished attempt
-- makes the actor stop because of the panic in cleanup: no restart policy and no retry limit
-- retries it.
pub destructor_panic_stops :
    (a : Attempt) (payload : Bool) (before after : Run) (r : AttemptResult)
    (restart : RestartPolicy) (max_retries : Option ℕ) (backoff_attempt : ℕ) (drop_panics : Bool)
    → a.spawn ≡ returns
    → a.future_drop ≡ unwinds payload
    → run_once a before ≡ (some r, after)
    → classify_attempt r restart max_retries backoff_attempt drop_panics ≡ cleanup_panic
destructor_panic_stops a payload before after r restart max_retries backoff_attempt drop_panics
      spawned bad h =
    panicked-stops r after restart max_retries backoff_attempt drop_panics
      (subst EndsPanicked h (run_once-Panicked a payload bad before spawned))
