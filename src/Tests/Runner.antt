-- ===== src/Tests/Runner.antt =====
-- src/core/runner.rs on an attempt that times out while its destructor unwinds.
use taskvisor.Prelude.{◌+◌, true, false, none, some, [], ◌∷◌, ◌++◌, ◌≡◌, refl, one}
use taskvisor.Actor
use taskvisor.Actor.{AttemptFailure, cleanup_panic, classify_attempt, on_failure, fail}
use taskvisor.Runner.{returns, unwinds, Poll, Attempt, Run, RunEvent, run_once}
use taskvisor.Runner.Publishing.{published}
use taskvisor.Runner.Reports.{Reported, run_once-Reported}
use taskvisor.Runner.Cleanup.{destructor_panic_stops}
use taskvisor.Runner.Destruction.{is_spawned, run_once-destroyed}

abbrev late : Attempt
late = record {
  spawn = returns;
  polls = Poll.pending ∷ Poll.expires ∷ [];
  future_drop = unwinds true;
  value_drop = returns;
  timeout = some 50;
  panic_reason = 1;
  timeout_reason = 2;
}

abbrev idle_run : Run
idle_run = record { cleanup_poisoned = false; child_cancelled = false; destroyed = 0; events = [] }

abbrev late_failure : AttemptFailure
late_failure = record { error = fail; reason = 1; exit_code = none; cleanup_panicked = true }

abbrev late_run : Run
late_run = record {
  cleanup_poisoned = true;
  child_cancelled = true;
  destroyed = 1;
  events = RunEvent.attempt_failed 1 none ∷ [];
}

late_result : run_once late idle_run ≡ (some (Actor.attempt_failed late_failure), late_run)
unfolding run_once
late_result = refl

run_once-Reported_example :
    ((run_once late idle_run).1.events ≡ [] ++ published late late.spawn)
    × Reported [] (run_once late idle_run)
run_once-Reported_example = run_once-Reported late idle_run

run_once-destroyed_example : (run_once late idle_run).1.destroyed ≡ 0 + one (is_spawned late.spawn)
run_once-destroyed_example = run_once-destroyed late idle_run

destructor_panic_stops_example :
    classify_attempt (Actor.attempt_failed late_failure) on_failure (some 5) 0 false ≡ cleanup_panic
destructor_panic_stops_example =
    destructor_panic_stops late true idle_run late_run (Actor.attempt_failed late_failure)
      on_failure (some 5) 0 false refl refl late_result
