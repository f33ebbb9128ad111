-- ===== src/Actor.antt =====
-- src/core/actor.rs: the attempt loop of one registered task, with `RestartPolicy` of
-- src/policies/restart.rs and the classes of `TaskError` of src/error.rs. What the loop reads from
-- outside in one iteration - the semaphore, the cancellation token, the attempt, the clock, the
-- sleep - is a `Turn`; a run is a fold over turns, and `going` is a loop that awaits the next one.
-- `delay_for_retry` is the method of the backoff policy, with the draw that this call makes.
pub mod Streak
pub mod Exits
use taskvisor.Prelude.{
  ℕ, ◌+◌, ◌-◌, min, max, Bool, true, false, not, ◌&&◌, ◌||◌, Option, none, some, List, [], ◌∷◌,
  ◌++◌, ltb, leb, if◌then◌else◌,
}

pub data RestartPolicy : Type 0 where
  never on_failure : RestartPolicy
  always : Option ℕ → RestartPolicy

pub data TaskError : Type 0 where
  timeout fatal fail task_canceled : TaskError

unfoldable pub is_retryable : TaskError → Bool
is_retryable timeout = true
is_retryable fail = true
is_retryable _ = false

unfoldable pub is_fatal : TaskError → Bool
is_fatal fatal = true
is_fatal _ = false

-- `reason` and `exit_code` are opaque values.
pub record AttemptFailure : Type 0 where
  pub error : TaskError
  pub reason : ℕ
  pub exit_code : Option ℕ
  pub cleanup_panicked : Bool

pub data AttemptResult : Type 0 where
  succeeded : AttemptResult
  attempt_failed : AttemptFailure → AttemptResult

pub data AttemptDecision : Type 0 where
  finished : AttemptResult → AttemptDecision
  retry : ℕ → AttemptDecision
  cleanup_panic : AttemptDecision

pub data ActorExitReason : Type 0 where
  completed : ActorExitReason
  exhausted : (limit_reached : Option ℕ) (reason : ℕ) (exit_code : Option ℕ) → ActorExitReason
  stopped : ActorExitReason
  panicked : (cleanup_poisoned : Bool) → ActorExitReason
  died : (reason : ℕ) (exit_code : Option ℕ) → ActorExitReason

-- `max.is_some_and(|max| backoff_attempt >= max.get())`.
abbrev pub retries_exhausted : Option ℕ → ℕ → Bool
retries_exhausted none backoff_attempt = false
retries_exhausted (some limit) backoff_attempt = leb limit backoff_attempt

abbrev pub policy_allows_retry : RestartPolicy → Bool
policy_allows_retry never = false
policy_allows_retry _ = true

-- `drop_panics`: dropping the error unwinds.
abbrev pub retry_unless_panic : Bool → ℕ → AttemptDecision
retry_unless_panic true reason = cleanup_panic
retry_unless_panic false reason = retry reason

unfoldable pub classify_attempt :
    AttemptResult → RestartPolicy → Option ℕ → ℕ → Bool → AttemptDecision
unfolding is_retryable
classify_attempt succeeded restart max_retries backoff_attempt drop_panics = finished succeeded
classify_attempt (attempt_failed failure) restart max_retries backoff_attempt drop_panics =
    if failure.cleanup_panicked
    then cleanup_panic
    else if not (policy_allows_retry restart && is_retryable failure.error)
        || retries_exhausted max_retries backoff_attempt
    then finished (attempt_failed failure)
    else retry_unless_panic drop_panics failure.reason

abbrev pub immediate_restart_floor : ℕ
immediate_restart_floor = 1000000

unfoldable pub floored_interval : ℕ → ℕ → ℕ
floored_interval interval elapsed = max interval (immediate_restart_floor - elapsed)

abbrev pub u32_max : ℕ
u32_max = 4294967295

-- `saturating_add(1)` on 32 bits.
unfoldable pub saturating_suc : ℕ → ℕ
saturating_suc n = min (n + 1) u32_max

pub data Acquire : Type 0 where
  granted unavailable : Acquire

-- What one iteration reads. `acquire` is `granted` without a semaphore, and `unavailable` when the
-- semaphore is closed or the token wins the race.
pub record Turn : Type 0 where
  pub cancelled_first : Bool
  pub acquire : Acquire
  pub cancelled_second : Bool
  pub result : AttemptResult
  pub drop_panics : Bool
  pub poisoned : Bool
  pub elapsed : ℕ
  pub slept : Bool
  pub cancelled_last : Bool

pub data Event : Type 0 where
  attempt_starting : (attempt : ℕ) → Event
  backoff_failure : (delay attempt reason : ℕ) → Event
  backoff_success : (delay attempt : ℕ) → Event

pub record Params : Type 0 where
  pub restart : RestartPolicy
  pub delay_for_retry : ℕ → ℕ
  pub max_retries : Option ℕ

-- The locals of `run`, the activity flag and permit of the entry, the sleeps and the bus.
pub record Loop : Type 0 where
  pub attempt : ℕ
  pub backoff_attempt : ℕ
  pub activity : Bool
  pub permit : Bool
  pub sleeps : List ℕ
  pub events : List Event

pub data Progress : Type 0 where
  going : Loop → Progress
  exited : ActorExitReason → Loop → Progress

abbrev pub start : Loop
start = record {
  attempt = 0;
  backoff_attempt = 0;
  activity = false;
  permit = false;
  sleeps = [];
  events = [];
}

abbrev pub publish : Event → Loop → Loop
publish e l = record l { events = l.events ++ e ∷ [] }

-- The start of an attempt, with its guards.
unfoldable pub begin_attempt : Loop → Loop
unfolding saturating_suc
begin_attempt l =
    publish (attempt_starting (saturating_suc l.attempt))
      (record l { attempt = saturating_suc l.attempt; activity = true; permit = true })

abbrev pub drop_guards : Loop → Loop
drop_guards l = record l { activity = false; permit = false }

abbrev pub sleep_cancellable : Bool → ℕ → Loop → Progress
sleep_cancellable true delay l = going (record l { sleeps = l.sleeps ++ delay ∷ [] })
sleep_cancellable false delay l = exited stopped (record l { sleeps = l.sleeps ++ delay ∷ [] })

abbrev pub after_retry : Params → Turn → ℕ → Loop → Progress
after_retry params t reason l =
    let delay = params.delay_for_retry l.backoff_attempt in
    sleep_cancellable t.slept delay (
      publish (backoff_failure delay l.attempt reason)
        (record l { backoff_attempt = saturating_suc l.backoff_attempt }))

-- A successful attempt of an `Always` task.
abbrev pub repeat_after : Option ℕ → Turn → Loop → Progress
repeat_after (some d) t l =
    let delay = floored_interval d t.elapsed in
    sleep_cancellable t.slept delay (publish (backoff_success delay l.attempt) l)
repeat_after none t l =
    if ltb t.elapsed immediate_restart_floor
    then sleep_cancellable t.slept (immediate_restart_floor - t.elapsed) l
    else going l

abbrev pub completed_unless : Bool → Loop → Progress
completed_unless true l = exited stopped l
completed_unless false l = exited completed l

abbrev pub after_success : RestartPolicy → Turn → Loop → Progress
after_success (always interval) t l = repeat_after interval t l
after_success _ t l = completed_unless t.cancelled_last l

-- The limit that the message names.
abbrev pub limit_reached : Option ℕ → ℕ → Option ℕ
limit_reached none backoff_attempt = none
limit_reached (some limit) backoff_attempt = if leb limit backoff_attempt then some limit else none

abbrev pub after_failure : Params → AttemptFailure → TaskError → Loop → Progress
after_failure params f fatal l = exited (died f.reason f.exit_code) l
after_failure params f task_canceled l = exited stopped l
after_failure params f _ l =
    exited (exhausted (limit_reached params.max_retries l.backoff_attempt) f.reason f.exit_code) l

unfoldable pub decide : Params → Turn → AttemptDecision → Loop → Progress
unfolding saturating_suc floored_interval
decide params t cleanup_panic l = exited (panicked t.poisoned) l
decide params t (retry reason) l = after_retry params t reason l
decide params t (finished succeeded) l =
    after_success params.restart t (record l { backoff_attempt = 0 })
decide params t (finished (attempt_failed f)) l = after_failure params f f.error l

-- An iteration of `run` from the start of the attempt.
abbrev pub attempt_once : Params → Turn → Loop → Progress
attempt_once params t l =
    decide params t
      (classify_attempt t.result params.restart params.max_retries l.backoff_attempt t.drop_panics)
      (drop_guards (begin_attempt l))

abbrev pub with_permit : Acquire → Params → Turn → Loop → Progress
with_permit unavailable params t l = exited stopped l
with_permit granted params t l =
    if t.cancelled_second then exited stopped l else attempt_once params t l

-- One iteration of `run`.
unfoldable pub turn : Params → Turn → Loop → Progress
unfolding begin_attempt classify_attempt decide
turn params t l = if t.cancelled_first then exited stopped l else with_permit t.acquire params t l

abbrev pub proceed : Params → Turn → Progress → Progress
proceed params t (going l) = turn params t l
proceed params t (exited reason l) = exited reason l

unfoldable pub run : Params → List Turn → Progress → Progress
unfolding turn
run params [] p = p
run params (t ∷ ts) p = run params ts (proceed params t p)
