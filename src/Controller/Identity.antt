-- ===== src/Controller/Identity.antt =====
-- src/controller/engine/identity.rs: remove and cancel by identity, across the controller's queues
-- and the runtime registry.
use taskvisor.Prelude.{
  suc, Bool, true, false, Option, none, some, [], ◌∷◌, leb, if◌then◌else◌, lookup, remove,
}
use taskvisor.Slot.{TaskId, PendingSubmission, SlotState, reject_admission}
use taskvisor.Controller.Pump.{cancel}
use taskvisor.Controller.State.{
  Name, State, Runtime, RuntimeError, shutting_down, resource_limit_reached, removed_from_queue,
  CapacityPending, publish, controller_rejected, task_remove_requested, send_rejected,
  finalize_rejected, dispose, gc_if_idle,
}
use taskvisor.Controller.Queue.{find_queued, remove_queued_at}
use taskvisor.Controller.Results.{claim_capacity, advance_and_store}

-- What the caller of an identity command hears: a reply, or the reply of the runtime operation that
-- the controller now tracks.
pub data IdentityReply : Type 0 where
  removed : IdentityReply
  failed : RuntimeError → IdentityReply
  passed_on : IdentityReply

-- Both events of a removal, then the rejection of its watcher.
abbrev pub announce : TaskId → Name → Name → State → State
announce id task_name slot_name st =
    publish (controller_rejected (some slot_name) id removed_from_queue)
      (publish (task_remove_requested task_name id) st)

-- A capacity waiter is claimed: its channel, and the controller after the pump let it go.
abbrev pub claim_waiter : TaskId → CapacityPending → State → State
claim_waiter id waiting st =
    let (done, st') = claim_capacity id st in
    send_rejected done removed_from_queue (
      announce id waiting.pending.task_name waiting.slot_name
        (record st' { pump = (cancel st'.pump id).0 }))

abbrev pub without_slot : TaskId → State → Option CapacityPending → Bool × State
without_slot id st (some waiting) = (true, dispose waiting.pending (claim_waiter id waiting st))
without_slot id st none = (false, record st { queued_slots = remove id st.queued_slots })

abbrev pub from_queue : TaskId → Name → SlotState → State → Option PendingSubmission → Bool × State
from_queue id name slot st none = (false, record st { queued_slots = remove id st.queued_slots })
from_queue id name slot st (some p) =
    let (slot', st') =
      remove_queued_at id slot (publish (task_remove_requested p.task_name id) st) in
    (
      true,
      dispose p (
          gc_if_idle name slot' (
            finalize_rejected id removed_from_queue
              (publish (controller_rejected (some name) id removed_from_queue) st'))),
    )

abbrev pub in_slot :
    Runtime → TaskId → Name → SlotState → State → Option CapacityPending → Bool × State
in_slot r id name slot st (some waiting) = (
  true,
  advance_and_store r name (reject_admission slot id).0 (r.upgrade 0) (waiting.pending ∷ [])
      (claim_waiter id waiting st),
)
in_slot r id name slot st none = from_queue id name slot st (find_queued id slot.queue)

abbrev pub at_route : Runtime → TaskId → State → Name → Option SlotState → Bool × State
at_route r id st name none = without_slot id st (lookup id st.capacity_pending)
at_route r id st name (some slot) =
    if r.down 1 then (false, st) else in_slot r id name slot st (lookup id st.capacity_pending)

-- The slot that holds the submission: of a capacity waiter first, then of the queue index.
abbrev pub route : TaskId → State → Option CapacityPending → Option Name
route id st (some waiting) = some waiting.slot_name
route id st none = lookup id st.queued_slots

abbrev pub follow : Runtime → TaskId → State → Option Name → Bool × State
follow r id st none = (false, st)
follow r id st (some name) = at_route r id st name (lookup name st.slots)

unfoldable pub remove_queued_submission : Runtime → TaskId → State → Bool × State
unfolding claim_capacity cancel advance_and_store reject_admission remove_queued_at find_queued
    finalize_rejected gc_if_idle dispose
remove_queued_submission r id st = follow r id st (route id st (lookup id st.capacity_pending))

abbrev pub to_registry : Runtime → Bool × State → State × IdentityReply
to_registry r (true, st) = (st, removed)
to_registry r (false, st) =
    if r.down 2
    then (st, failed shutting_down)
    else if leb st.config.identity_operation_capacity st.identity_operations
    then (st, failed resource_limit_reached)
    else if r.upgrade 1
    then (record st { identity_operations = suc st.identity_operations }, passed_on)
    else (st, failed shutting_down)

unfoldable pub handle_identity_operation : Runtime → TaskId → State → State × IdentityReply
unfolding remove_queued_submission
handle_identity_operation r id st =
    if r.down 0
    then (st, failed shutting_down)
    else to_registry r (remove_queued_submission r id st)
