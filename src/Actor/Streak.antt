-- ===== src/Actor/Streak.antt =====
-- The retry counter of src/core/actor.rs against the history of the attempts.
use taskvisor.Prelude.{
  ℕ, ◌≡◌, refl, false, Option, none, some, List, [], ◌∷◌, arith, Within, ap, ◌∙◌,
}
use taskvisor.Actor.{
  is_retryable, AttemptResult, succeeded, attempt_failed, classify_attempt, saturating_suc,
  floored_interval, Turn, Params, Loop, Progress, going, exited, start, begin_attempt, decide, turn,
  run,
}

-- The failures since the last success, saturating like the counter: from the results alone.
abbrev pub after_result : AttemptResult → ℕ → ℕ
after_result succeeded streak = 0
after_result (attempt_failed f) streak = saturating_suc streak

unfoldable pub streak : List Turn → ℕ → ℕ
streak [] n = n
streak (t ∷ ts) n = streak ts (after_result t.result n)

-- A loop between two attempts.
abbrev pub Counts : ℕ → Option ℕ → ℕ → Progress → Type 0
Counts n limit before (going l) =
    (l.backoff_attempt ≡ n) × (Within limit before → Within limit l.backoff_attempt)
Counts n limit before (exited reason l) = Unit {0}

turn-Counts :
    (params : Params) (t : Turn) (l : Loop)
    → Counts
        (after_result t.result l.backoff_attempt)
        params.max_retries
        l.backoff_attempt
        (turn params t l)
unfolding turn classify_attempt decide begin_attempt saturating_suc is_retryable floored_interval
turn-Counts params t l = ground arith

-- The counter and its limit, after any turns.
abbrev pub Tallied : ℕ → Option ℕ → Progress → Type 0
Tallied n limit (going l) = (l.backoff_attempt ≡ n) × Within limit l.backoff_attempt
Tallied n limit (exited reason l) = Unit {0}

run-Tallied :
    (params : Params) (ts : List Turn) (n : ℕ) (p : Progress)
    → Tallied n params.max_retries p
    → Tallied (streak ts n) params.max_retries (run params ts p)
unfolding run streak
run-Tallied params [] n p h = h
run-Tallied params (t ∷ ts) n (exited reason l) h =
    run-Tallied params ts (after_result t.result n) (exited reason l) tt
run-Tallied params (t ∷ ts) n (going l) h =
    run-Tallied params ts (after_result t.result n) (turn params t l)
      (step (turn params t l) (turn-Counts params t l))
  where
    step :
        (p : Progress)
        → Counts (after_result t.result l.backoff_attempt) params.max_retries l.backoff_attempt p
        → Tallied (after_result t.result n) params.max_retries p
    step (going k) c = (c.0 ∙ ap (after_result t.result) h.0, c.1 h.1)
    step (exited reason k) c = tt

Within-zero : (limit : Option ℕ) → Within limit 0
Within-zero none = tt
Within-zero (some limit) = omega arith

-- While the loop goes on, its retry counter is the number of failures since the last success, and
-- it never passes the retry limit.
pub run-streak :
    (params : Params) (ts : List Turn)
    → Tallied (streak ts 0) params.max_retries (run params ts (going start))
run-streak params ts = run-Tallied params ts 0 (going start) (refl, Within-zero params.max_retries)

-- No attempt permit and no activity mark is held between attempts or after the loop.
abbrev pub loop_of : Progress → Loop
loop_of (going l) = l
loop_of (exited reason l) = l

abbrev pub IsQuiet : Progress → Type 0
IsQuiet p = ((loop_of p).activity ≡ false) × ((loop_of p).permit ≡ false)

turn-IsQuiet :
    (params : Params) (t : Turn) (l : Loop) → IsQuiet (going l) → IsQuiet (turn params t l)
unfolding turn classify_attempt decide begin_attempt saturating_suc is_retryable floored_interval
turn-IsQuiet params t l h = ground arith

run-IsQuiet :
    (params : Params) (ts : List Turn) (p : Progress) → IsQuiet p → IsQuiet (run params ts p)
unfolding run
run-IsQuiet params [] p h = h
run-IsQuiet params (t ∷ ts) (exited reason l) h = run-IsQuiet params ts (exited reason l) h
run-IsQuiet params (t ∷ ts) (going l) h =
    run-IsQuiet params ts (turn params t l) (turn-IsQuiet params t l h)

-- Between attempts and after the loop returns, neither the semaphore permit nor the activity mark
-- is held, whatever the turns were.
pub run-start-IsQuiet : (params : Params) (ts : List Turn) → IsQuiet (run params ts (going start))
run-start-IsQuiet params ts = run-IsQuiet params ts (going start) (refl, refl)
