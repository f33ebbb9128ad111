-- ===== src/Controller/Handoff.antt =====
-- src/controller/engine/admission/handoff.rs, advance.rs and the error rule of cleanup.rs: an idle
-- slot crosses into registry admission.
use taskvisor.Prelude.{
  Option, none, some, List, [], ◌∷◌, ◌++◌, if◌then◌else◌, Map, lookup, insert, remove,
}
use taskvisor.Slot.{TaskId, PendingSubmission, SlotState, begin_admission, is_idle}
use taskvisor.Controller.Pump.{Pump, enqueue}
use taskvisor.Controller.State.{
  Name, OutcomeTx, State, Runtime, RuntimeError, command_queue_full, resource_limit_reached,
  RejectionKind, resource_limit, admission_failed, publish, finalize_rejected, controller_submitted,
  controller_rejected,
}
use taskvisor.Controller.Queue.{
  try_index_capacity_pending, unindex_capacity_pending, unindex_queued,
}

-- `Result<(), StartFailure>` of `start_in_slot`, with what it did to the slot and the controller.
-- A failure leaves the slot as it was and returns the submission.
pub data Started : Type 0 where
  started : SlotState → State → Started
  refused : RuntimeError → PendingSubmission → State → Started

unfoldable pub rejection_kind : RuntimeError → RejectionKind
rejection_kind resource_limit_reached = resource_limit
rejection_kind _ = admission_failed

-- A failed handoff gives the outcome channel back to the controller.
abbrev pub restored : TaskId → Option OutcomeTx → Map OutcomeTx → Map OutcomeTx
restored id none watchers = watchers
restored id (some tx) watchers = insert id tx watchers

abbrev pub restore_watcher : TaskId → Option OutcomeTx → State → State
restore_watcher id tx st = record st { watchers = restored id tx st.watchers }

abbrev pub enqueued : Runtime → SlotState → PendingSubmission → State → Option Pump → Started
enqueued r slot p st (some pump) =
    started (begin_admission slot p.id r.now).0 (record st { pump = pump })
enqueued r slot p st none = refused resource_limit_reached p (unindex_capacity_pending p.id st)

abbrev pub await_capacity : Runtime → SlotState → PendingSubmission → State → Option State → Started
await_capacity r slot p st (some st') = enqueued r slot p st' (enqueue st'.pump p.id)
await_capacity r slot p st none = refused resource_limit_reached p st

-- The arms of the `match` on the immediate result of the Add command.
abbrev pub add_result :
    Runtime
    → Name
    → SlotState
    → PendingSubmission
    → Option OutcomeTx
    → State
    → Option RuntimeError
    → Started
add_result r name slot p _ st none =
    started (begin_admission slot p.id r.now).0
      (record st { admissions = st.admissions ++ (p.id, name) ∷ [] })
add_result r name slot p done st (some command_queue_full) =
    let st' = restore_watcher p.id done st in
    await_capacity r slot p st'
      (try_index_capacity_pending p.id (record { slot_name = name; pending = p }) st')
add_result r name slot p done st (some error) = refused error p (restore_watcher p.id done st)

unfoldable pub start_in_slot : Runtime → Name → SlotState → PendingSubmission → State → Started
unfolding begin_admission enqueue try_index_capacity_pending unindex_capacity_pending
start_in_slot r name slot p st =
    add_result r name slot p (lookup p.id st.watchers)
      (record st { watchers = remove p.id st.watchers }) (r.add p.id)

-- The slot, the controller and the failed handoffs that the caller disposes of.
pub record Advance : Type 0 where
  pub slot : SlotState
  pub state : State
  pub drops : List PendingSubmission

abbrev pub reject_queued : Name → PendingSubmission → RejectionKind → State → State
reject_queued name p kind st =
    finalize_rejected p.id kind (publish (controller_rejected (some name) p.id kind) st)

abbrev pub add_drop : PendingSubmission → Advance → Advance
add_drop p a = record a { drops = p ∷ a.drops }

abbrev pub advance_on : Name → PendingSubmission → (State → Advance) → Started → Advance
advance_on name p continue (started slot st) = record {
  slot = slot;
  state = publish (controller_submitted name p.id) st;
  drops = [];
}
advance_on name p continue (refused error q st) =
    add_drop q (continue (reject_queued name q (rejection_kind error) st))

-- The `while let` of `start_next_from_queue`, over the queue that is left.
unfoldable pub advance_queue : Runtime → Name → SlotState → List PendingSubmission → State → Advance
unfolding start_in_slot finalize_rejected rejection_kind unindex_queued
advance_queue r name slot [] st = record {
  slot = record slot { queue = [] };
  state = st;
  drops = [];
}
advance_queue r name slot (p ∷ rest) st =
    advance_on name p (advance_queue r name slot rest)
      (start_in_slot r name (record slot { queue = rest }) p (unindex_queued p.id st))

unfoldable pub start_next_from_queue : Runtime → Name → SlotState → State → Advance
unfolding advance_queue is_idle
start_next_from_queue r name slot st =
    if is_idle slot
    then advance_queue r name slot slot.queue st
    else record { slot = slot; state = st; drops = [] }
