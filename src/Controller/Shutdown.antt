-- ===== src/Controller/Shutdown.antt =====
-- src/controller/engine/lifecycle/shutdown.rs and `finalize_remaining_watchers` of mod.rs: what the
-- controller does with the work that it still owns when its loop ends.
pub mod Drained
use taskvisor.Prelude.{ℕ, Option, none, some, List, [], ◌∷◌, ◌++◌, Map, lookup, remove, map}
use taskvisor.Slot.{TaskId, PendingSubmission, SlotState}
use taskvisor.Controller.State.{
  Name, State, CapacityPending, controller_shutting_down, publish, controller_rejected,
  send_rejected, finalize_rejected, dispose_all,
}
use taskvisor.Controller.Submission.{Submission, slot_name_of}

pub data Command : Type 0 where
  submit : Submission → Command
  manage_identity : TaskId → Command

-- `drain_pending_on_shutdown`, its `while let`: the values to dispose of are collected in order.
unfoldable pub drain_commands : List Command → State → State × List ℕ
drain_commands [] st = (st, [])
drain_commands (submit sub ∷ rest) st =
    let (st', drops) = drain_commands rest (
      send_rejected sub.done controller_shutting_down (
        publish (controller_rejected (some (slot_name_of sub)) sub.id controller_shutting_down)
          st)) in
    (st', sub.owned ∷ drops)
drain_commands (manage_identity id ∷ rest) st = drain_commands rest st

unfoldable pub drain_pending_on_shutdown : List Command → State → State
unfolding drain_commands
drain_pending_on_shutdown commands st =
    let (st', drops) = drain_commands commands st in record st' { disposed = st'.disposed ++ drops }

abbrev pub reject_shutdown : Option Name → TaskId → State → State
reject_shutdown name id st =
    finalize_rejected id controller_shutting_down
      (publish (controller_rejected name id controller_shutting_down) st)

-- The waiters that were drained from `capacity_pending`.
unfoldable pub reject_waiters : Map CapacityPending → State → State
unfolding finalize_rejected
reject_waiters [] st = st
reject_waiters ((id, waiting) ∷ rest) st =
    reject_waiters rest (reject_shutdown (some waiting.slot_name) id st)

-- One slot's queue, popped until it is empty.
unfoldable pub reject_queue : Name → List PendingSubmission → State → State
unfolding finalize_rejected
reject_queue name [] st = st
reject_queue name (p ∷ ps) st =
    reject_queue name ps
      (reject_shutdown (some name) p.id (record st { queued_slots = remove p.id st.queued_slots }))

unfoldable pub reject_slots : Map SlotState → State → State
unfolding reject_queue
reject_slots [] st = st
reject_slots ((name, slot) ∷ rest) st = reject_slots rest (reject_queue name slot.queue st)

abbrev pub queued_of : Map SlotState → List PendingSubmission
queued_of [] = []
queued_of ((name, slot) ∷ rest) = slot.queue ++ queued_of rest

-- `finalize_remaining_watchers`, over the keys that it copied.
unfoldable pub reject_watchers : List TaskId → State → State
unfolding finalize_rejected
reject_watchers [] st = st
reject_watchers (id ∷ ids) st = reject_watchers ids (reject_shutdown none id st)

unfoldable pub finalize_slot_state_on_shutdown : State → State
unfolding reject_waiters reject_slots reject_watchers dispose_all
finalize_slot_state_on_shutdown st =
    let st₁ = reject_waiters st.capacity_pending (record st { capacity_pending = [] }) in
    let st₂ = reject_slots st.slots st₁ in
    let st₃ = reject_watchers (map (λ e. e.0) st₂.watchers) st₂ in
    dispose_all (map (λ e. e.1.pending) st.capacity_pending ++ queued_of st.slots)
      (record st₃ { slots = []; queued_slots = []; capacity_pending = [] })
