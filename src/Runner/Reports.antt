-- ===== src/Runner/Reports.antt =====
-- src/core/runner.rs: what an attempt reports, and the result that it reports it for.
use taskvisor.Prelude.{
  ℕ, ◌≤◌, true, false, Option, none, some, List, [], ◌∷◌, ◌++◌, ◌≡◌, ◌≢◌, refl, ap, ◌∙◌, inl, inr,
  ◌⊎◌, arith,
}
use taskvisor.Actor
use taskvisor.Actor.{
  TaskError, timeout, fail, task_canceled, fatal, AttemptFailure, AttemptResult, AttemptDecision,
  RestartPolicy, classify_attempt,
}
use taskvisor.Runner.{
  Caught, returns, unwinds, UserError, Poll, Attempt, RunEvent, Run, CaughtFailure,
  dispose_panic_payload, drop_future, settle_ready, Ending, joined, expired, aborted, deadline,
  abort, drive, caught, classify_failure, time_out, conclude, spawn_failed, run_spawned, run_once,
}
use taskvisor.Runner.Publishing.{
  dispose_panic_payload-events, drop_future-events, dispose_value-events, published,
  run_spawned-published,
}

-- The event of a result.
abbrev pub Reports : AttemptResult → RunEvent → Type 0
Reports Actor.succeeded RunEvent.attempt_succeeded = Unit
Reports (Actor.attempt_failed f) RunEvent.attempt_canceled = f.error ≡ task_canceled
Reports (Actor.attempt_failed f) RunEvent.attempt_timed_out =
    (f.error ≡ timeout) × (f.cleanup_panicked ≡ false)
Reports (Actor.attempt_failed f) (RunEvent.attempt_failed reason exit_code) =
    (f.error ≢ task_canceled) × (reason ≡ f.reason) × (exit_code ≡ f.exit_code)
Reports _ _ = 1 ≤ 0

-- A finished attempt published one event, which reports its result.
abbrev pub Reported : List RunEvent → Option AttemptResult × Run → Type 0
Reported before (none, s) =
    (s.events ≡ before) ⊎ (s.events ≡ before ++ RunEvent.runtime_failure ∷ [])
Reported before (some result, s) = (e : RunEvent) × (s.events ≡ before ++ e ∷ []) × Reports result e

abbrev IsOther : TaskError → Type 0
IsOther task_canceled = 1 ≤ 0
IsOther _ = Unit

not_canceled :
    (error : TaskError) (f : AttemptFailure)
    → f.error ≡ error
    → IsOther error
    → f.error ≢ task_canceled
not_canceled task_canceled f e o h = absurd (omega (arith, o))
not_canceled timeout f e o h = absurd (ground (arith, e, h))
not_canceled fatal f e o h = absurd (ground (arith, e, h))
not_canceled fail f e o h = absurd (ground (arith, e, h))

classify_failure-Reported :
    (error : TaskError) (f : AttemptFailure) (s : Run)
    → f.error ≡ error
    → Reported s.events (classify_failure error f s)
classify_failure-Reported task_canceled f s e = (RunEvent.attempt_canceled, refl, e)
classify_failure-Reported timeout f s e = (_, refl, (not_canceled timeout f e tt, refl, refl))
classify_failure-Reported fatal f s e = (_, refl, (not_canceled fatal f e tt, refl, refl))
classify_failure-Reported fail f s e = (_, refl, (not_canceled fail f e tt, refl, refl))

Reported-base :
    (old before : List RunEvent) (out : Option AttemptResult × Run)
    → old ≡ before
    → Reported old out
    → Reported before out
Reported-base old before (none, s) e (inl h) = inl (h ∙ e)
Reported-base old before (none, s) e (inr h) =
    inr (h ∙ ap (λ b. b ++ RunEvent.runtime_failure ∷ []) e)
Reported-base old before (some result, s) e (event, h, reports) =
    (event, h ∙ ap (λ b. b ++ event ∷ []) e, reports)

-- What the polls published.
abbrev Driven : List RunEvent → Ending × Run → Type 0
Driven before (aborted, s) =
    (s.events ≡ before) ⊎ (s.events ≡ before ++ RunEvent.runtime_failure ∷ [])
Driven before (joined failure, s) = s.events ≡ before
Driven before (expired d, s) = s.events ≡ before

abort-Driven :
    (before : List RunEvent) (dropped : Option CaughtFailure × Run)
    → dropped.1.events ≡ before
    → Driven before (abort dropped)
abort-Driven before (none, s) h = inl h
abort-Driven before (some failure, s) h = inr (ap (λ b. b ++ RunEvent.runtime_failure ∷ []) h)

settle_ready-events :
    (a : Attempt) (result : Option UserError) (dropped : Option CaughtFailure × Run)
    → (settle_ready a result dropped).1.events ≡ dropped.1.events
settle_ready-events a result (none, s) = refl
settle_ready-events a result (some failure, s) = dispose_value-events a.value_drop s

drive-Driven :
    (a : Attempt) (limit : Option ℕ) (polls : List Poll) (s : Run)
    → Driven s.events (drive a limit polls s)
unfolding drive
drive-Driven a limit [] s = abort-Driven s.events _ (drop_future-events a a.future_drop s)
drive-Driven a limit (Poll.pending ∷ polls) s = drive-Driven a limit polls s
drive-Driven a none (Poll.expires ∷ polls) s = drive-Driven a none polls s
drive-Driven a (some d) (Poll.expires ∷ polls) s = refl
drive-Driven a limit (Poll.ready result ∷ polls) s =
    settle_ready-events a result (drop_future a a.future_drop s)
    ∙ drop_future-events a a.future_drop s
drive-Driven a limit (Poll.panics payload ∷ polls) s =
    drop_future-events a a.future_drop (dispose_panic_payload payload s).1
    ∙ dispose_panic_payload-events payload s

time_out-Reported :
    (a : Attempt) (d : ℕ) (drop : Caught) (s : Run)
    → Reported (drop_future a drop s).1.events (time_out a d (drop_future a drop s))
unfolding drop_future
time_out-Reported a d returns s = (RunEvent.attempt_timed_out, refl, (refl, refl))
time_out-Reported a d (unwinds payload) s = (_, refl, ((λ h. absurd (ground arith)), refl, refl))

conclude-Reported :
    (a : Attempt) (before : List RunEvent) (out : Ending × Run)
    → Driven before out
    → Reported before (conclude a out)
conclude-Reported a before (aborted, s) h = h
conclude-Reported a before (expired d, s) h =
    Reported-base _ before _
      (drop_future-events a a.future_drop (record s { child_cancelled = true }) ∙ h)
      (time_out-Reported a d a.future_drop (record s { child_cancelled = true }))
conclude-Reported a before (joined none, s) h =
    (RunEvent.attempt_succeeded, ap (λ b. b ++ RunEvent.attempt_succeeded ∷ []) h, tt)
conclude-Reported a before (joined (some failure), s) h =
    Reported-base s.events before _ h
      (classify_failure-Reported failure.error.error (caught failure) s refl)

run_spawned-Reported :
    (a : Attempt) (spawn : Caught) (s : Run) → Reported s.events (run_spawned a spawn s)
run_spawned-Reported a returns s =
    conclude-Reported a s.events (drive a (deadline a.timeout) a.polls s)
      (drive-Driven a (deadline a.timeout) a.polls s)
run_spawned-Reported a (unwinds payload) s =
    Reported-base _ s.events (spawn_failed a (dispose_panic_payload payload s))
      (dispose_panic_payload-events payload s) (_, refl, ((λ h. absurd (ground arith)), refl, refl))

-- What an attempt publishes is decided by whether its creation unwinds, whether its destructor
-- unwinds and the first poll that is ready, unwinds or, under a timeout, expires: success, the
-- expiry of the timer, a cancellation for a canceled error, and else the failure with its reason and
-- exit code; what unwinds makes it a panic's failure, or a diagnostic when only the destructor of an
-- aborted attempt does, which otherwise publishes nothing. A finished attempt so publishes
-- exactly one event, and it is the one of its result: a cancellation exactly for a canceled error,
-- an expiry only for a timeout without a panic in cleanup, and a failure with the result's reason
-- and exit code.
pub run_once-Reported :
    (a : Attempt) (s : Run)
    → ((run_once a s).1.events ≡ s.events ++ published a a.spawn) × Reported s.events (run_once a s)
unfolding run_once
run_once-Reported a s = (run_spawned-published a a.spawn s, run_spawned-Reported a a.spawn s)
