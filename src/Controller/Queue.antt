-- ===== src/Controller/Queue.antt =====
-- src/controller/engine/queue.rs: slot queues and the indexes that mirror them. An operation takes
-- the slot that the caller has locked; `Err` returns the submission to the caller and is `none`.
use taskvisor.Prelude.{
  ℕ, Bool, Option, none, some, List, [], ◌∷◌, ◌++◌, leb, at_limit, ◌==◌, if◌then◌else◌, length,
  lookup, insert, remove,
}
use taskvisor.Slot.{TaskId, PendingSubmission, SlotState, new}
use taskvisor.Controller.State.{
  Name, State, CapacityPending, pending_len, publish, finalize_rejected, controller_rejected,
  superseded_by_replace,
}

unfoldable pub index_queued : TaskId → Name → State → State
index_queued id name st = record st { queued_slots = insert id name st.queued_slots }

unfoldable pub unindex_queued : TaskId → State → State
unindex_queued id st = record st { queued_slots = remove id st.queued_slots }

unfoldable pub try_push_queued :
    SlotState → Name → PendingSubmission → State → Option (SlotState × State)
unfolding index_queued pending_len
try_push_queued slot name p st =
    if at_limit st.config.max_total_pending (pending_len st)
    then none
    else some (record slot { queue = slot.queue ++ p ∷ [] }, index_queued p.id name st)

abbrev pub pop_front :
    List PendingSubmission → SlotState → State → Option (PendingSubmission × SlotState × State)
pop_front [] slot st = none
pop_front (p ∷ rest) slot st =
    some (p, record slot { queue = rest }, record st { queued_slots = remove p.id st.queued_slots })

unfoldable pub pop_queued_front : SlotState → State → Option (PendingSubmission × SlotState × State)
pop_queued_front slot st = pop_front slot.queue slot st

-- `queue.iter().position(|pending| pending.id == id)` and `queue.remove(position)` in one.
unfoldable pub find_queued : TaskId → List PendingSubmission → Option PendingSubmission
find_queued id [] = none
find_queued id (p ∷ ps) = if p.id == id then some p else find_queued id ps

unfoldable pub remove_queued : TaskId → List PendingSubmission → List PendingSubmission
remove_queued id [] = []
remove_queued id (p ∷ ps) = if p.id == id then ps else p ∷ remove_queued id ps

-- `remove_queued_at`, at the position of `id`.
unfoldable pub remove_queued_at : TaskId → SlotState → State → SlotState × State
unfolding remove_queued unindex_queued
remove_queued_at id slot st =
    (record slot { queue = remove_queued id slot.queue }, unindex_queued id st)

abbrev pub slot_or_create : Name → State → Option SlotState → Option (SlotState × State)
slot_or_create name st (some slot) = some (slot, st)
slot_or_create name st none =
    if at_limit st.config.max_controller_slots (length st.slots)
    then none
    else some (new, record st { slots = insert name new st.slots })

unfoldable pub try_get_or_create_slot : Name → State → Option (SlotState × State)
try_get_or_create_slot name st = slot_or_create name st (lookup name st.slots)

-- `queue_full_reason(slot_len).is_some()`.
unfoldable pub queue_full : State → ℕ → Bool
queue_full st slot_len = leb st.config.max_slot_queue slot_len

unfoldable pub try_index_capacity_pending : TaskId → CapacityPending → State → Option State
unfolding pending_len
try_index_capacity_pending id waiting st =
    if at_limit st.config.max_total_pending (pending_len st)
    then none
    else some (record st { capacity_pending = insert id waiting st.capacity_pending })

unfoldable pub unindex_capacity_pending : TaskId → State → State
unindex_capacity_pending id st = record st { capacity_pending = remove id st.capacity_pending }

abbrev pub replace_front :
    List PendingSubmission
    → SlotState
    → Name
    → PendingSubmission
    → State
    → SlotState × State × Option PendingSubmission
replace_front [] slot name p st = (
  record slot { queue = p ∷ [] },
  record st { queued_slots = insert p.id name st.queued_slots },
  none,
)
replace_front (head ∷ rest) slot name p st = (
  record slot { queue = p ∷ rest },
  finalize_rejected head.id superseded_by_replace (
      publish (controller_rejected (some name) head.id superseded_by_replace)
        (record st { queued_slots = insert p.id name (remove head.id st.queued_slots) })),
  some head,
)

unfoldable pub replace_head_or_push :
    SlotState → Name → PendingSubmission → State → SlotState × State × Option PendingSubmission
replace_head_or_push slot name p st = replace_front slot.queue slot name p st

abbrev pub try_replace :
    List PendingSubmission
    → SlotState
    → Name
    → PendingSubmission
    → State
    → Option (SlotState × State × Option PendingSubmission)
try_replace [] slot name p st =
    if at_limit st.config.max_total_pending (pending_len st)
    then none
    else some (
      record slot { queue = p ∷ [] },
      record st { queued_slots = insert p.id name st.queued_slots },
      none,
    )
try_replace (head ∷ rest) slot name p st = some (replace_head_or_push slot name p st)

unfoldable pub try_replace_head_or_push :
    SlotState
    → Name
    → PendingSubmission
    → State
    → Option (SlotState × State × Option PendingSubmission)
unfolding replace_head_or_push pending_len
try_replace_head_or_push slot name p st = try_replace slot.queue slot name p st
