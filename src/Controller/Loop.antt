-- ===== src/Controller/Loop.antt =====
-- src/controller/engine/lifecycle/driver.rs: the serialized loop as a function of the inputs that
-- its `select!` takes, one at a time. A result comes from a tracked future, which is dropped as it
-- resolves; the choice between ready inputs, the burst limit that only orders them, and the panic
-- guard are not modelled.
use taskvisor.Prelude.{
  ◌-◌, Bool, true, false, Option, none, some, List, [], ◌∷◌, ◌==◌, ◌&&◌, if◌then◌else◌,
}
use taskvisor.Slot.{TaskId}
use taskvisor.Controller.Pump.{Pump, next}
use taskvisor.Controller.State.{Name, State, Runtime, RuntimeError}
use taskvisor.Controller.Submission.{handle_submission}
use taskvisor.Controller.Results.{
  handle_registry_capacity_result, handle_admission_result, handle_completion_result,
  handle_removal_result,
}
use taskvisor.Controller.Identity.{handle_identity_operation}
use taskvisor.Controller.Shutdown.{Command, submit, manage_identity}

-- What the loop takes from its channels and tracked futures.
pub data Input : Type 0 where
  command : Command → Input
  capacity_resolved : Option RuntimeError → Input
  admission_resolved : TaskId → Name → Bool → Input
  completion_resolved : TaskId → Name → Input
  removal_resolved : TaskId → Name → Bool → Input
  identity_resolved : Input

unfoldable pub is_tracked : TaskId → Name → List (TaskId × Name) → Bool
is_tracked id name [] = false
is_tracked id name ((i, n) ∷ rest) = if i == id && n == name then true else is_tracked id name rest

unfoldable pub untrack : TaskId → Name → List (TaskId × Name) → List (TaskId × Name)
untrack id name [] = []
untrack id name ((i, n) ∷ rest) =
    if i == id && n == name then rest else (i, n) ∷ untrack id name rest

abbrev pub handle_controller_command : Runtime → Command → State → State
handle_controller_command r (submit sub) st = handle_submission r sub st
handle_controller_command r (manage_identity id) st = (handle_identity_operation r id st).0

abbrev pub capacity_step : Runtime → Option RuntimeError → State → Pump × Option TaskId → State
capacity_step r decision st (pump, none) = record st { pump = pump }
capacity_step r decision st (pump, some id) =
    handle_registry_capacity_result r id decision (record st { pump = pump })

-- One round of the loop: an input that no tracked future can produce does nothing.
unfoldable pub step : Runtime → Input → State → State
unfolding handle_submission handle_identity_operation handle_registry_capacity_result
    handle_admission_result handle_completion_result handle_removal_result next is_tracked untrack
step r (command c) st = handle_controller_command r c st
step r (capacity_resolved decision) st = capacity_step r decision st (next st.pump)
step r (admission_resolved id name accepted) st =
    if is_tracked id name st.admissions
    then handle_admission_result r id name accepted
        (record st { admissions = untrack id name st.admissions })
    else st
step r (completion_resolved id name) st =
    if is_tracked id name st.completions
    then handle_completion_result r id name
        (record st { completions = untrack id name st.completions })
    else st
step r (removal_resolved id name failed) st =
    if is_tracked id name st.removals
    then handle_removal_result id name failed (record st { removals = untrack id name st.removals })
    else st
step r identity_resolved st = record st { identity_operations = st.identity_operations - 1 }

unfoldable pub run : List (Runtime × Input) → State → State
unfolding step
run [] st = st
run ((r, i) ∷ rest) st = run rest (step r i st)
