-- ===== src/Actor/Exits.antt =====
-- When the loop of src/core/actor.rs ends.
use taskvisor.Prelude.{
  ℕ, suc, ◌+◌, ◌≤◌, ◌<◌, ◌≡◌, refl, true, false, some, List, [], ◌∷◌, ◌++◌, arith, leb, length, All,
}
use taskvisor.Actor.{
  TaskError, timeout, fatal, fail, task_canceled, is_retryable, is_fatal, AttemptFailure,
  attempt_failed, exhausted, died, policy_allows_retry, classify_attempt, saturating_suc, u32_max,
  granted, Event, attempt_starting, backoff_failure, backoff_success, Turn, Params, Loop, Progress,
  going, exited, drop_guards, after_failure, start, begin_attempt, decide, turn, run,
}

-- The attempts that a list of events starts.
unfoldable pub starts : List Event → ℕ
starts [] = 0
starts (attempt_starting a ∷ es) = suc (starts es)
starts (backoff_failure d a r ∷ es) = starts es
starts (backoff_success d a ∷ es) = starts es

starts-append : (es fs : List Event) → starts (es ++ fs) ≡ starts es + starts fs
unfolding starts
starts-append [] fs = omega arith
starts-append (attempt_starting a ∷ es) fs = omega (arith, starts-append es fs)
starts-append (backoff_failure d a r ∷ es) fs = starts-append es fs
starts-append (backoff_success d a ∷ es) fs = starts-append es fs

-- A turn that nothing cancels and whose attempt fails retryably.
pub record Fails (t : Turn) : Type 0 where
  pub failure : AttemptFailure
  pub fails : t.result ≡ attempt_failed failure
  pub retryable : is_retryable failure.error ≡ true
  pub clean : failure.cleanup_panicked ≡ false
  pub dropped : t.drop_panics ≡ false
  pub first : t.cancelled_first ≡ false
  pub second : t.cancelled_second ≡ false
  pub acquired : t.acquire ≡ granted
  pub slept : t.slept ≡ true

-- The turn starts one attempt and schedules the next.
abbrev pub Retried : Loop → Progress → Type 0
Retried l (going k) =
    (k.backoff_attempt ≡ saturating_suc l.backoff_attempt) × (starts k.events ≡ starts l.events + 1)
Retried l (exited reason k) = ⊥

-- The turn starts one attempt and gives up.
abbrev pub Spent : ℕ → ℕ → Progress → Type 0
Spent limit count (exited (exhausted (some k) reason code) l) =
    (k ≡ limit) × (starts l.events ≡ count)
Spent limit count _ = ⊥

starts_one : (es : List Event) (a : ℕ) → starts (es ++ attempt_starting a ∷ []) ≡ starts es + 1
unfolding starts
starts_one es a = omega (arith, starts-append es (attempt_starting a ∷ []))

starts_retry :
    (es : List Event) (a d b r : ℕ)
    → starts ((es ++ attempt_starting a ∷ []) ++ backoff_failure d b r ∷ []) ≡ starts es + 1
unfolding starts
starts_retry es a d b r = omega (
  arith,
  starts-append (es ++ attempt_starting a ∷ []) (backoff_failure d b r ∷ []),
  starts_one es a,
)

retries :
    (params : Params) (limit : ℕ) (t : Turn) (l : Loop)
    → params.max_retries ≡ some limit
    → policy_allows_retry params.restart ≡ true
    → Fails t
    → l.backoff_attempt < limit
    → Retried l (turn params t l)
unfolding turn classify_attempt decide begin_attempt
retries params limit t l m a f h =
    rw
      (f.first, f.acquired, f.second, f.fails, m, a, f.clean, f.retryable, f.dropped, f.slept, room)
      (refl, starts_retry l.events _ _ _ _)
  where
    room : leb limit l.backoff_attempt ≡ false
    room = ground arith

gave_up :
    (params : Params) (f : AttemptFailure) (limit count : ℕ) (e : TaskError) (l : Loop)
    → params.max_retries ≡ some limit
    → is_retryable e ≡ true
    → leb limit l.backoff_attempt ≡ true
    → starts l.events ≡ count
    → Spent limit count (after_failure params f e l)
unfolding is_retryable
gave_up params f limit count timeout l m r h k = rw (m, h) (refl, k)
gave_up params f limit count fail l m r h k = rw (m, h) (refl, k)
gave_up params f limit count fatal l m r h k = cc
gave_up params f limit count task_canceled l m r h k = cc

gives_up :
    (params : Params) (limit : ℕ) (t : Turn) (l : Loop)
    → params.max_retries ≡ some limit
    → policy_allows_retry params.restart ≡ true
    → Fails t
    → limit ≤ l.backoff_attempt
    → Spent limit (starts l.events + 1) (turn params t l)
unfolding turn classify_attempt decide begin_attempt
gives_up params limit t l m a f h =
    simp (f.first, f.acquired, f.second, f.fails, m, a, f.clean, f.retryable, full)
      (gave_up params f.failure limit (starts l.events + 1) f.failure.error
        (drop_guards (begin_attempt l)) m f.retryable full (starts_one l.events _))
  where
    full : leb limit l.backoff_attempt ≡ true
    full = ground arith

run_spends :
    (params : Params) (limit : ℕ) (t : Turn) (ts : List Turn) (l : Loop)
    → params.max_retries ≡ some limit
    → policy_allows_retry params.restart ≡ true
    → limit ≤ u32_max
    → Fails t
    → All Fails ts
    → l.backoff_attempt + length ts ≡ limit
    → Spent limit (starts l.events + length ts + 1) (run params (t ∷ ts) (going l))
unfolding run saturating_suc
run_spends params limit t [] l m a b f g h =
    rw (none_left) (gives_up params limit t l m a f (omega (arith, h)))
  where
    none_left : starts l.events + length {A = Turn} [] + 1 ≡ starts l.events + 1
    none_left = omega arith
run_spends params limit t (u ∷ us) l m a b f g h =
    next (λ k e. run_spends params limit u us k m a b g.0 g.1 e) (turn params t l)
      (retries params limit t l m a f (omega (arith, h)))
  where
    next :
        ((k : Loop)
          → k.backoff_attempt + length us ≡ limit
          → Spent limit (starts k.events + length us + 1) (run params (u ∷ us) (going k)))
        → (p : Progress) → Retried l p
        → Spent limit (starts l.events + length (u ∷ us) + 1) (run params (u ∷ us) p)
    next rest (going k) r = rw counted (rest k counter)
      where
        counted : starts l.events + length (u ∷ us) + 1 ≡ starts k.events + length us + 1
        counted = omega (arith, r.1)

        saturated : k.backoff_attempt ≡ l.backoff_attempt + 1
        saturated = omega (arith, r.0, h, b)

        counter : k.backoff_attempt + length us ≡ limit
        counter = omega (arith, saturated, h)
    next rest (exited reason k) r = elim r [ ]

-- The retry budget: when the policy retries failures, nothing cancels the task and its attempts
-- keep failing retryably, it starts one attempt and exactly `max_retries` more, and then it exits,
-- naming the limit.
pub run_exhausts :
    (params : Params) (limit : ℕ) (ts : List Turn)
    → params.max_retries ≡ some limit
    → policy_allows_retry params.restart ≡ true
    → limit ≤ u32_max
    → All Fails ts
    → length ts ≡ limit + 1
    → Spent limit (limit + 1) (run params ts (going start))
unfolding starts
run_exhausts params limit [] m a b f h = ground arith
run_exhausts params limit (t ∷ ts) m a b f h =
    rw⁻¹ total (run_spends params limit t ts start m a b f.0 f.1 size)
  where
    size : 0 + length ts ≡ limit
    size = omega (arith, h)

    total : starts [] + length ts + 1 ≡ limit + 1
    total = omega (arith, size)

-- A fatal failure ends the task, under every policy and retry limit, when nothing canceled the
-- attempt before it began and its cleanup did not panic.
pub turn_fatal :
    (params : Params) (t : Turn) (l : Loop) (f : AttemptFailure)
    → t.result ≡ attempt_failed f
    → is_fatal f.error ≡ true
    → f.cleanup_panicked ≡ false
    → t.cancelled_first ≡ false
    → t.acquire ≡ granted
    → t.cancelled_second ≡ false
    → turn params t l ≡ exited (died f.reason f.exit_code) (drop_guards (begin_attempt l))
unfolding turn classify_attempt decide begin_attempt is_retryable is_fatal
turn_fatal params t l f r e c x g y = ground arith
