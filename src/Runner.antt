-- ===== src/Runner.antt =====
-- src/core/runner.rs: one physical attempt and its panic boundary. What the user's code does is an
-- `Attempt`: what `spawn`, each poll and the destructors do. A poll that `expires` is the timer's
-- turn in `select!`. When the polls end while the future is pending, the runtime drops the attempt.
-- Durations and texts of events are opaque or left out.
use taskvisor.Prelude.{
  ℕ, zero, suc, ◌+◌, Bool, true, false, ◌||◌, Option, none, some, List, [], ◌∷◌, ◌++◌,
  if◌then◌else◌, is_some,
}
use taskvisor.Actor.{TaskError, timeout, fail, task_canceled, fatal, AttemptFailure, AttemptResult}
use taskvisor.Actor
pub mod Publishing
pub mod Reports
pub mod Cleanup
pub mod Destruction

-- What `catch_unwind` sees: `unwinds` carries whether the payload's destructor unwinds too.
pub data Caught : Type 0 where
  returns : Caught
  unwinds : (payload_unwinds : Bool) → Caught

-- A `TaskError` with its text and code.
pub record UserError : Type 0 where
  pub error : TaskError
  pub reason : ℕ
  pub exit_code : Option ℕ

pub data Poll : Type 0 where
  pending expires : Poll
  ready : Option UserError → Poll
  panics : (payload_unwinds : Bool) → Poll

pub record Attempt : Type 0 where
  pub spawn : Caught
  pub polls : List Poll
  pub future_drop : Caught
  pub value_drop : Caught
  pub timeout : Option ℕ
  pub panic_reason : ℕ
  pub timeout_reason : ℕ

pub data RunEvent : Type 0 where
  attempt_succeeded attempt_canceled attempt_timed_out runtime_failure : RunEvent
  attempt_failed : (reason : ℕ) (exit_code : Option ℕ) → RunEvent

-- The poison flag of the actor, the child token, the futures that were destroyed, and the bus.
pub record Run : Type 0 where
  pub cleanup_poisoned : Bool
  pub child_cancelled : Bool
  pub destroyed : ℕ
  pub events : List RunEvent

pub record CaughtFailure : Type 0 where
  pub error : UserError
  pub cleanup_panicked : Bool

abbrev pub publish : RunEvent → Run → Run
publish e s = record s { events = s.events ++ e ∷ [] }

unfoldable pub dispose_panic_payload : Bool → Run → Bool × Run
dispose_panic_payload true s = (true, record s { cleanup_poisoned = true })
dispose_panic_payload false s = (false, s)

abbrev pub panic_to_error : Attempt → UserError
panic_to_error a = record { error = fail; reason = a.panic_reason; exit_code = none }

-- `drop_future`.
unfoldable pub drop_future : Attempt → Caught → Run → Option CaughtFailure × Run
unfolding dispose_panic_payload
drop_future a returns s = (none, record s { destroyed = s.destroyed + 1 })
drop_future a (unwinds payload) s = (
  some (record { error = panic_to_error a; cleanup_panicked = true }),
  (dispose_panic_payload payload (record s { destroyed = s.destroyed + 1 })).1,
)

unfoldable pub dispose_value : Caught → Run → Run
unfolding dispose_panic_payload
dispose_value returns s = s
dispose_value (unwinds payload) s = (dispose_panic_payload payload s).1

abbrev pub plain : UserError → CaughtFailure
plain error = record { error = error; cleanup_panicked = false }

abbrev pub map_plain : Option UserError → Option CaughtFailure
map_plain none = none
map_plain (some error) = some (plain error)

-- A ready result, after the future was destroyed.
abbrev pub settle_ready :
    Attempt → Option UserError → Option CaughtFailure × Run → Option CaughtFailure × Run
settle_ready a result (some failure, s) = (some failure, dispose_value a.value_drop s)
settle_ready a result (none, s) = (map_plain result, s)

abbrev pub settle_panic : Attempt → Bool → Option CaughtFailure × Run → Option CaughtFailure × Run
settle_panic a payload_poisoned (dropped, s) = (
  some
      (record { error = panic_to_error a; cleanup_panicked = payload_poisoned || is_some dropped }),
  s,
)

-- How the polls of the future end.
pub data Ending : Type 0 where
  joined : Option CaughtFailure → Ending
  expired : ℕ → Ending
  aborted : Ending

-- The timeout, unless it is zero.
abbrev pub deadline : Option ℕ → Option ℕ
deadline none = none
deadline (some zero) = none
deadline (some (suc d)) = some (suc d)

abbrev pub joined_with : Option CaughtFailure × Run → Ending × Run
joined_with (failure, s) = (joined failure, s)

-- `CatchPanic::poll`, and its drop when the attempt is aborted.
abbrev pub abort : Option CaughtFailure × Run → Ending × Run
abort (none, s) = (aborted, s)
abort (some failure, s) = (aborted, publish runtime_failure s)

unfoldable pub drive : Attempt → Option ℕ → List Poll → Run → Ending × Run
unfolding drop_future dispose_value dispose_panic_payload
drive a limit [] s = abort (drop_future a a.future_drop s)
drive a limit (pending ∷ polls) s = drive a limit polls s
drive a none (expires ∷ polls) s = drive a none polls s
drive a (some d) (expires ∷ polls) s = (expired d, s)
drive a limit (ready result ∷ polls) s =
    joined_with (settle_ready a result (drop_future a a.future_drop s))
drive a limit (panics payload ∷ polls) s =
    let disposed = dispose_panic_payload payload s in
    joined_with (settle_panic a disposed.0 (drop_future a a.future_drop disposed.1))

-- `AttemptFailure::new` and `caught`.
abbrev pub caught : CaughtFailure → AttemptFailure
caught failure = record {
  error = failure.error.error;
  reason = failure.error.reason;
  exit_code = failure.error.exit_code;
  cleanup_panicked = failure.cleanup_panicked;
}

abbrev pub fail_with : AttemptFailure → Run → Option AttemptResult × Run
fail_with failure s = (
  some (Actor.attempt_failed failure),
  publish (RunEvent.attempt_failed failure.reason failure.exit_code) s,
)

abbrev pub cancel_with : AttemptFailure → Run → Option AttemptResult × Run
cancel_with failure s = (some (Actor.attempt_failed failure), publish attempt_canceled s)

abbrev pub classify_failure : TaskError → AttemptFailure → Run → Option AttemptResult × Run
classify_failure task_canceled failure s = cancel_with failure s
classify_failure timeout failure s = fail_with failure s
classify_failure fatal failure s = fail_with failure s
classify_failure fail failure s = fail_with failure s

abbrev pub time_out : Attempt → ℕ → Option CaughtFailure × Run → Option AttemptResult × Run
time_out a d (some failure, s) = fail_with (caught failure) s
time_out a d (none, s) = (
  some (
      Actor.attempt_failed (record {
        error = timeout;
        reason = a.timeout_reason;
        exit_code = none;
        cleanup_panicked = false;
      })),
  publish attempt_timed_out s,
)

-- No result when the attempt is aborted.
abbrev pub conclude : Attempt → Ending × Run → Option AttemptResult × Run
conclude a (aborted, s) = (none, s)
conclude a (expired d, s) =
    time_out a d (drop_future a a.future_drop (record s { child_cancelled = true }))
conclude a (joined none, s) = (some Actor.succeeded, publish attempt_succeeded s)
conclude a (joined (some failure), s) = classify_failure failure.error.error (caught failure) s

abbrev pub spawn_failed : Attempt → Bool × Run → Option AttemptResult × Run
spawn_failed a (payload_poisoned, s) =
    fail_with (caught (record { error = panic_to_error a; cleanup_panicked = payload_poisoned })) s

abbrev pub run_spawned : Attempt → Caught → Run → Option AttemptResult × Run
run_spawned a returns s = conclude a (drive a (deadline a.timeout) a.polls s)
run_spawned a (unwinds payload) s = spawn_failed a (dispose_panic_payload payload s)

unfoldable pub run_once : Attempt → Run → Option AttemptResult × Run
unfolding drive drop_future dispose_panic_payload
run_once a s = run_spawned a a.spawn s
