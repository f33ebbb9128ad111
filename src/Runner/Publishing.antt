-- ===== src/Runner/Publishing.antt =====
-- src/core/runner.rs: the events that an attempt publishes, by what its code does.
use mathlib.Core.List.{append-nil}
use taskvisor.Prelude.{
  ℕ, ◌+◌, Bool, true, false, Option, none, some, List, [], ◌∷◌, ◌++◌, ◌≡◌, refl, ap, sym, ◌∙◌,
}
use taskvisor.Actor.{TaskError, timeout, fail, task_canceled, fatal}
use taskvisor.Runner.{
  Caught, returns, unwinds, UserError, Poll, Attempt, RunEvent, Run, dispose_panic_payload,
  drop_future, dispose_value, deadline, drive, caught, classify_failure, conclude, run_spawned,
}

pub dispose_panic_payload-events :
    (payload : Bool) (s : Run) → ((dispose_panic_payload payload s).1.events ≡ s.events)
unfolding dispose_panic_payload
dispose_panic_payload-events true s = refl
dispose_panic_payload-events false s = refl

pub drop_future-events :
    (a : Attempt) (drop : Caught) (s : Run) → (drop_future a drop s).1.events ≡ s.events
unfolding drop_future
drop_future-events a returns s = refl
drop_future-events a (unwinds payload) s =
    dispose_panic_payload-events payload (record s { destroyed = s.destroyed + 1 })

pub dispose_value-events : (drop : Caught) (s : Run) → (dispose_value drop s).events ≡ s.events
unfolding dispose_value
dispose_value-events returns s = refl
dispose_value-events (unwinds payload) s = dispose_panic_payload-events payload s

-- The poll that decides an attempt: the first that is ready or unwinds, or that the timer precedes.
abbrev pub deciding : Option ℕ → List Poll → Option Poll
deciding limit [] = none
deciding limit (Poll.pending ∷ polls) = deciding limit polls
deciding none (Poll.expires ∷ polls) = deciding none polls
deciding (some d) (Poll.expires ∷ polls) = some Poll.expires
deciding limit (Poll.ready result ∷ polls) = some (Poll.ready result)
deciding limit (Poll.panics payload ∷ polls) = some (Poll.panics payload)

abbrev pub panic_event : Attempt → RunEvent
panic_event a = RunEvent.attempt_failed a.panic_reason none

abbrev pub error_event : TaskError → UserError → RunEvent
error_event task_canceled e = RunEvent.attempt_canceled
error_event _ e = RunEvent.attempt_failed e.reason e.exit_code

-- The events of an attempt that was spawned, by its destructor and the deciding poll: a destructor
-- that unwinds comes before everything else.
abbrev pub published_by : Attempt → Caught → Option Poll → List RunEvent
published_by a (unwinds payload) none = RunEvent.runtime_failure ∷ []
published_by a (unwinds payload) (some poll) = panic_event a ∷ []
published_by a returns none = []
published_by a returns (some Poll.pending) = []
published_by a returns (some Poll.expires) = RunEvent.attempt_timed_out ∷ []
published_by a returns (some (Poll.ready none)) = RunEvent.attempt_succeeded ∷ []
published_by a returns (some (Poll.ready (some e))) = error_event e.error e ∷ []
published_by a returns (some (Poll.panics payload)) = panic_event a ∷ []

abbrev pub published : Attempt → Caught → List RunEvent
published a (unwinds payload) = panic_event a ∷ []
published a returns = published_by a a.future_drop (deciding (deadline a.timeout) a.polls)

abbrev dropping : Caught → Attempt → Attempt
dropping drop a = record a { future_drop = drop }

error-published :
    (error : TaskError) (e : UserError) (s : Run)
    → (classify_failure error (caught (record { error = e; cleanup_panicked = false })) s).1.events
      ≡ s.events ++ error_event error e ∷ []
error-published task_canceled e s = refl
error-published timeout e s = refl
error-published fatal e s = refl
error-published fail e s = refl

drive-published :
    (a : Attempt) (drop : Caught) (limit : Option ℕ) (polls : List Poll) (s : Run)
    → (conclude (dropping drop a) (drive (dropping drop a) limit polls s)).1.events
      ≡ s.events ++ published_by a drop (deciding limit polls)
unfolding drive drop_future dispose_panic_payload
drive-published a drop limit (Poll.pending ∷ polls) s = drive-published a drop limit polls s
drive-published a drop none (Poll.expires ∷ polls) s = drive-published a drop none polls s
drive-published a returns limit [] s = sym (append-nil s.events)
drive-published a (unwinds true) limit [] s = refl
drive-published a (unwinds false) limit [] s = refl
drive-published a returns (some d) (Poll.expires ∷ polls) s = refl
drive-published a (unwinds true) (some d) (Poll.expires ∷ polls) s = refl
drive-published a (unwinds false) (some d) (Poll.expires ∷ polls) s = refl
drive-published a returns limit (Poll.ready none ∷ polls) s = refl
drive-published a returns limit (Poll.ready (some e) ∷ polls) s =
    error-published e.error e (record s { destroyed = s.destroyed + 1 })
drive-published a (unwinds payload) limit (Poll.ready result ∷ polls) s =
    ap (λ events. events ++ panic_event a ∷ [])
      (dispose_value-events a.value_drop (drop_future a (unwinds payload) s).1
        ∙ drop_future-events a (unwinds payload) s)
drive-published a returns limit (Poll.panics true ∷ polls) s = refl
drive-published a returns limit (Poll.panics false ∷ polls) s = refl
drive-published a (unwinds true) limit (Poll.panics true ∷ polls) s = refl
drive-published a (unwinds true) limit (Poll.panics false ∷ polls) s = refl
drive-published a (unwinds false) limit (Poll.panics true ∷ polls) s = refl
drive-published a (unwinds false) limit (Poll.panics false ∷ polls) s = refl

pub run_spawned-published :
    (a : Attempt) (spawn : Caught) (s : Run)
    → (run_spawned a spawn s).1.events ≡ s.events ++ published a spawn
unfolding dispose_panic_payload
run_spawned-published a returns s = drive-published a a.future_drop (deadline a.timeout) a.polls s
run_spawned-published a (unwinds true) s = refl
run_spawned-published a (unwinds false) s = refl
