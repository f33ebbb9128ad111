-- ===== src/Runner/Destruction.antt =====
-- src/core/runner.rs: the destruction of the user's future.
use taskvisor.Prelude.{
  ℕ, ◌+◌, Bool, true, false, Option, none, some, List, [], ◌∷◌, ◌≡◌, refl, ap, ◌∙◌, one, arith,
}
use taskvisor.Actor.{TaskError, timeout, fail, task_canceled, fatal, AttemptFailure}
use taskvisor.Runner.{
  Caught, returns, unwinds, UserError, Poll, Attempt, Run, CaughtFailure, dispose_panic_payload,
  drop_future, dispose_value, settle_ready, Ending, joined, expired, aborted, deadline, abort,
  drive, caught, classify_failure, time_out, conclude, run_spawned, run_once,
}

dispose_panic_payload-destroyed :
    (payload : Bool) (s : Run) → (dispose_panic_payload payload s).1.destroyed ≡ s.destroyed
unfolding dispose_panic_payload
dispose_panic_payload-destroyed true s = refl
dispose_panic_payload-destroyed false s = refl

drop_future-destroyed :
    (a : Attempt) (drop : Caught) (s : Run) → (drop_future a drop s).1.destroyed ≡ s.destroyed + 1
unfolding drop_future
drop_future-destroyed a returns s = refl
drop_future-destroyed a (unwinds payload) s =
    dispose_panic_payload-destroyed payload (record s { destroyed = s.destroyed + 1 })

dispose_value-destroyed : (drop : Caught) (s : Run) → (dispose_value drop s).destroyed ≡ s.destroyed
unfolding dispose_value
dispose_value-destroyed returns s = refl
dispose_value-destroyed (unwinds payload) s = dispose_panic_payload-destroyed payload s

-- The timer leaves the destruction to the caller.
abbrev destructions : Ending → ℕ
destructions (expired d) = 0
destructions _ = 1

abort-destroyed :
    (n : ℕ) (dropped : Option CaughtFailure × Run)
    → dropped.1.destroyed ≡ n + 1
    → (abort dropped).1.destroyed ≡ n + destructions (abort dropped).0
abort-destroyed n (none, s) h = h
abort-destroyed n (some failure, s) h = h

settle_ready-destroyed :
    (a : Attempt) (result : Option UserError) (dropped : Option CaughtFailure × Run)
    → (settle_ready a result dropped).1.destroyed ≡ dropped.1.destroyed
settle_ready-destroyed a result (none, s) = refl
settle_ready-destroyed a result (some failure, s) = dispose_value-destroyed a.value_drop s

drive-destroyed :
    (a : Attempt) (limit : Option ℕ) (polls : List Poll) (s : Run)
    → (drive a limit polls s).1.destroyed ≡ s.destroyed + destructions (drive a limit polls s).0
unfolding drive
drive-destroyed a limit [] s =
    abort-destroyed s.destroyed (drop_future a a.future_drop s)
      (drop_future-destroyed a a.future_drop s)
drive-destroyed a limit (Poll.pending ∷ polls) s = drive-destroyed a limit polls s
drive-destroyed a none (Poll.expires ∷ polls) s = drive-destroyed a none polls s
drive-destroyed a (some d) (Poll.expires ∷ polls) s = omega arith
drive-destroyed a limit (Poll.ready result ∷ polls) s =
    settle_ready-destroyed a result (drop_future a a.future_drop s)
    ∙ drop_future-destroyed a a.future_drop s
drive-destroyed a limit (Poll.panics payload ∷ polls) s =
    drop_future-destroyed a a.future_drop (dispose_panic_payload payload s).1
    ∙ ap (λ n. n + 1) (dispose_panic_payload-destroyed payload s)

time_out-destroyed :
    (a : Attempt) (d : ℕ) (dropped : Option CaughtFailure × Run)
    → (time_out a d dropped).1.destroyed ≡ dropped.1.destroyed
time_out-destroyed a d (none, s) = refl
time_out-destroyed a d (some failure, s) = refl

classify_failure-destroyed :
    (error : TaskError) (f : AttemptFailure) (s : Run)
    → (classify_failure error f s).1.destroyed ≡ s.destroyed
classify_failure-destroyed task_canceled f s = refl
classify_failure-destroyed timeout f s = refl
classify_failure-destroyed fatal f s = refl
classify_failure-destroyed fail f s = refl

conclude-destroyed :
    (a : Attempt) (n : ℕ) (out : Ending × Run)
    → out.1.destroyed ≡ n + destructions out.0
    → (conclude a out).1.destroyed ≡ n + 1
conclude-destroyed a n (aborted, s) h = h
conclude-destroyed a n (expired d, s) h =
    let cancelled : Run = record s { child_cancelled = true } in
    omega (
      arith,
      h,
      time_out-destroyed a d (drop_future a a.future_drop cancelled),
      drop_future-destroyed a a.future_drop cancelled,
    )
conclude-destroyed a n (joined none, s) h = h
conclude-destroyed a n (joined (some failure), s) h =
    classify_failure-destroyed failure.error.error (caught failure) s ∙ h

abbrev pub is_spawned : Caught → Bool
is_spawned returns = true
is_spawned (unwinds payload) = false

run_spawned-destroyed :
    (a : Attempt) (spawn : Caught) (s : Run)
    → (run_spawned a spawn s).1.destroyed ≡ s.destroyed + one (is_spawned spawn)
run_spawned-destroyed a returns s =
    conclude-destroyed a s.destroyed (drive a (deadline a.timeout) a.polls s)
      (drive-destroyed a (deadline a.timeout) a.polls s)
run_spawned-destroyed a (unwinds payload) s =
    omega (arith, dispose_panic_payload-destroyed payload s)

-- However an attempt ends - with a result, by a panic, at its timeout or aborted - the future of
-- the task is destroyed exactly once if it was created, and not at all if its creation unwound.
pub run_once-destroyed :
    (a : Attempt) (s : Run) → (run_once a s).1.destroyed ≡ s.destroyed + one (is_spawned a.spawn)
unfolding run_once
run_once-destroyed a s = run_spawned-destroyed a a.spawn s
