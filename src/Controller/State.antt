-- ===== src/Controller/State.antt =====
-- src/controller/engine/mod.rs and state/mod.rs: what the controller keeps, with the operations
-- that its loop tracks (operations.rs), and the steps that every handler shares.
--
-- `OutcomeTx` is the number of a watched outcome channel. `outcomes`, `disposed` and `events` are
-- logs, oldest first: what was sent on those channels, which task values went to reserved cleanup,
-- and what was published on the bus. Texts of reasons are not modelled.
use taskvisor.Prelude.{
  ℕ, Bool, true, false, ◌&&◌, Option, none, some, List, [], ◌∷◌, ◌++◌, ◌+◌, if◌then◌else◌, length,
  map, Map, lookup, insert, remove,
}
use taskvisor.Slot.{TaskId, Instant, PendingSubmission, SlotState, is_idle}
use taskvisor.Controller.Pump.{Pump}

abbrev pub Name : Type 0
Name = ℕ

abbrev pub OutcomeTx : Type 0
OutcomeTx = ℕ

pub data RejectionKind : Type 0 where
  already_exists batch_rejected slot_busy queue_full superseded_by_replace : RejectionKind
  removed_from_queue controller_shutting_down admission_failed resource_limit : RejectionKind

pub data RuntimeError : Type 0 where
  tokio_runtime_unavailable thread_start_failed grace_exceeded task_already_exists : RuntimeError
  resource_limit_reached command_queue_full ownership_admission_timeout : RuntimeError
  task_termination_timeout outcome_unavailable signal_setup_failed : RuntimeError
  shutting_down already_running : RuntimeError

pub data Event : Type 0 where
  controller_submitted : Name → TaskId → Event
  controller_rejected : Option Name → TaskId → RejectionKind → Event
  slot_transition : Name → Event
  task_remove_requested : Name → TaskId → Event
  runtime_failure : TaskId → Event

-- The limits of `ControllerConfig` that the engine reads.
pub record Config : Type 0 where
  pub max_slot_queue : ℕ
  pub max_controller_slots : Option ℕ
  pub max_total_pending : Option ℕ
  pub identity_operation_capacity : ℕ

pub record CapacityPending : Type 0 where
  pub slot_name : Name
  pub pending : PendingSubmission

-- `Controller` and `ControllerState` with the `TrackedOperations` of the running loop.
-- `admissions`, `completions` and `removals` list the tracked futures, newest last.
pub record State : Type 0 where
  pub config : Config
  pub slots : Map SlotState
  pub queued_slots : Map Name
  pub capacity_pending : Map CapacityPending
  pub watchers : Map OutcomeTx
  pub pump : Pump
  pub admissions : List (TaskId × Name)
  pub completions : List (TaskId × Name)
  pub removals : List (TaskId × Name)
  pub identity_operations : ℕ
  pub disposed : List ℕ
  pub outcomes : List (OutcomeTx × RejectionKind)
  pub events : List Event

-- What the rest of the runtime answers during one handler. `upgrade` and `down` are the results of
-- the handler's successive reads of `supervisor.upgrade()` and `is_shutting_down()`, which other
-- threads change; `add` is the immediate result of `add_task_with_id_watched` for a task, and
-- `commit` that of `commit_reserved_controller_add`: `none` when the command was sent.
pub record Runtime : Type 0 where
  pub upgrade : ℕ → Bool
  pub down : ℕ → Bool
  pub add : TaskId → Option RuntimeError
  pub commit : TaskId → Option RuntimeError
  pub now : Instant

-- `ControllerState::pending_len`.
unfoldable pub pending_len : State → ℕ
pending_len st = length st.queued_slots + length st.capacity_pending

abbrev pub publish : Event → State → State
publish e st = record st { events = st.events ++ e ∷ [] }

-- What a rejection sends on a watched channel.
abbrev pub sent : Option OutcomeTx → RejectionKind → List (OutcomeTx × RejectionKind)
sent none kind = []
sent (some tx) kind = (tx, kind) ∷ []

abbrev pub send_rejected : Option OutcomeTx → RejectionKind → State → State
send_rejected tx kind st = record st { outcomes = st.outcomes ++ sent tx kind }

-- A rejection resolves a parked watcher; without one it changes nothing.
unfoldable pub finalize_rejected : TaskId → RejectionKind → State → State
finalize_rejected id kind st =
    send_rejected (lookup id st.watchers) kind (record st { watchers = remove id st.watchers })

-- `dispose_owned_task` and its callers `drop_pending_submission` and `drop_start_failure`.
unfoldable pub dispose : PendingSubmission → State → State
dispose p st = record st { disposed = st.disposed ++ p.owned ∷ [] }

unfoldable pub dispose_all : List PendingSubmission → State → State
dispose_all ps st = record st { disposed = st.disposed ++ map (λ p. p.owned) ps }

abbrev pub is_empty_queue : List PendingSubmission → Bool
is_empty_queue [] = true
is_empty_queue (p ∷ ps) = false

-- The end of a slot guard: what was done to the slot stands in the map.
unfoldable pub store : Name → SlotState → State → State
store name slot st = record st { slots = insert name slot st.slots }

-- `gc_if_idle`: an idle slot with an empty queue leaves the map.
unfoldable pub gc_if_idle : Name → SlotState → State → State
gc_if_idle name slot st =
    if is_idle slot && is_empty_queue slot.queue
    then record st { slots = remove name st.slots }
    else record st { slots = insert name slot st.slots }
