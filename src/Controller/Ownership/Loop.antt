-- ===== src/Controller/Ownership/Loop.antt =====
-- The invariant across the rounds of the loop, src/controller/engine/lifecycle/driver.rs.
use taskvisor.Prelude.{
  ℕ, refl, inl, inr, Option, none, some, List, [], ◌∷◌, arith, lookup, Within, Bool-cases,
}
use taskvisor.Slot.{TaskId}
use taskvisor.Controller.Pump.{Pump, next, new}
use taskvisor.Controller.State.{Name, State, Config, Runtime, RuntimeError}
use taskvisor.Controller.Shutdown.{submit, manage_identity}
use taskvisor.Controller.Loop.{
  Input, command, capacity_resolved, admission_resolved, completion_resolved, removal_resolved,
  identity_resolved, step, run, is_tracked, untrack, capacity_step,
}
use taskvisor.Controller.Ownership.{Consistent, IsFresh, slot_at, count_tracked, count_id}
use taskvisor.Controller.Ownership.Waits.{reply-Owned, reply-Absent}
use taskvisor.Controller.Ownership.Results.{
  same-Consistent, handle_admission_result-Consistent, handle_completion_result-Consistent,
  handle_removal_result-Consistent,
}
use taskvisor.Controller.Ownership.Reservation.{handle_registry_capacity_result-Consistent}
use taskvisor.Controller.Ownership.Submission.{handle_submission-Consistent}
use taskvisor.Controller.Ownership.Identity.{handle_identity_operation-Consistent}

-- A `TaskId` is given out once: the controller holds nothing of a task that is submitted.
abbrev pub Admissible : Input → State → Type 0
Admissible (command (submit sub)) st = IsFresh sub.id st
Admissible _ st = Unit {0}

capacity_step-Consistent :
    (r : Runtime) (decision : Option RuntimeError) (st : State) (x : Pump × Option TaskId)
    → Consistent st
    → Consistent (capacity_step r decision st x)
capacity_step-Consistent r decision st (pump, none) c =
    same-Consistent st _ refl refl refl refl refl c
capacity_step-Consistent r decision st (pump, some id) c =
    handle_registry_capacity_result-Consistent r id decision _
      (same-Consistent st _ refl refl refl refl refl c)

reply-Consistent :
    (id : TaskId) (name : Name) (st : State)
    → Consistent st
    → Consistent (record st { admissions = untrack id name st.admissions })
reply-Consistent id name st c = record {
  owned =
      reply-Owned st.config.max_total_pending (slot_at st.slots) st.queued_slots st.capacity_pending
        st.admissions id name c.owned;
  slots_map = c.slots_map;
  slots_bounded = c.slots_bounded;
}

-- Every input that the loop takes keeps the controller consistent: the queues and their index
-- agree, no submission is held twice, capacity waiters own their slots, and both limits hold.
pub step-Consistent :
    (r : Runtime) (i : Input) (st : State)
    → Admissible i st
    → Consistent st
    → Consistent (step r i st)
unfolding step
step-Consistent r (command (submit sub)) st fresh c = handle_submission-Consistent r sub st fresh c
step-Consistent r (command (manage_identity id)) st fresh c =
    handle_identity_operation-Consistent r id st c
step-Consistent r (capacity_resolved decision) st fresh c =
    capacity_step-Consistent r decision st (next st.pump) c
step-Consistent r (admission_resolved id name accepted) st fresh c =
    elim (Bool-cases (is_tracked id name st.admissions)) [
      | inl e ↦ rw e (
          handle_admission_result-Consistent r id name accepted _
            (reply-Absent st.config.max_total_pending (slot_at st.slots) st.queued_slots
              st.capacity_pending st.admissions id name e c.owned)
            (reply-Consistent id name st c))
      | inr e ↦ rw e c
    ]
step-Consistent r (completion_resolved id name) st fresh c =
    elim (Bool-cases (is_tracked id name st.completions)) [
      | inl e ↦ rw e (
          handle_completion_result-Consistent r id name _
            (same-Consistent st _ refl refl refl refl refl c))
      | inr e ↦ rw e c
    ]
step-Consistent r (removal_resolved id name failed) st fresh c =
    elim (Bool-cases (is_tracked id name st.removals)) [
      | inl e ↦ rw e (
          handle_removal_result-Consistent id name failed _
            (same-Consistent st _ refl refl refl refl refl c))
      | inr e ↦ rw e c
    ]
step-Consistent r identity_resolved st fresh c = same-Consistent st _ refl refl refl refl refl c

-- Every submission of the run has a fresh identity when the loop takes it.
abbrev pub AllAdmissible : List (Runtime × Input) → State → Type 0
AllAdmissible [] st = Unit {0}
AllAdmissible ((r, i) ∷ rest) st = Admissible i st × AllAdmissible rest (step r i st)

run-Consistent :
    (inputs : List (Runtime × Input)) (st : State)
    → AllAdmissible inputs st
    → Consistent st
    → Consistent (run inputs st)
unfolding run
run-Consistent [] st a c = c
run-Consistent ((r, i) ∷ rest) st a c =
    run-Consistent rest (step r i st) a.1 (step-Consistent r i st a.0 c)

-- `Controller::new` with the tracked operations of a loop that starts.
abbrev pub start : Config → ℕ → State
start config admission_capacity = record {
  config = config;
  slots = [];
  queued_slots = [];
  capacity_pending = [];
  watchers = [];
  pump = new admission_capacity;
  admissions = [];
  completions = [];
  removals = [];
  identity_operations = 0;
  disposed = [];
  outcomes = [];
  events = [];
}

Within-zero : (l : Option ℕ) → Within l 0
Within-zero none = tt
Within-zero (some l) = omega arith

start-Consistent : (config : Config) (n : ℕ) → Consistent (start config n)
unfolding lookup count_tracked count_id
start-Consistent config n = record {
  owned = record {
    index_map = tt;
    waiting_map = tt;
    counts = λ n a. refl;
    once = λ a. omega arith;
    bounded = Within-zero config.max_total_pending;
    waits = λ a. tt;
  };
  slots_map = tt;
  slots_bounded = Within-zero config.max_controller_slots;
}

-- From its start, through any inputs with fresh identities and any answers of the runtime, the
-- controller is consistent.
pub run-start-Consistent :
    (config : Config) (n : ℕ) (inputs : List (Runtime × Input))
    → AllAdmissible inputs (start config n)
    → Consistent (run inputs (start config n))
run-start-Consistent config n inputs a =
    run-Consistent inputs (start config n) a (start-Consistent config n)
