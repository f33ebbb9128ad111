-- ===== src/Controller/Results.antt =====
-- src/controller/engine/admission/capacity.rs, results.rs, and the removal result of operations.rs:
-- what the runtime reports about tasks that the controller handed to it.
use taskvisor.Prelude.{
  Bool, true, false, Option, none, some, List, [], ◌∷◌, ◌++◌, ◌==◌, if◌then◌else◌, lookup, remove,
  not, ◌&&◌,
}
use taskvisor.Slot.{
  TaskId, PendingSubmission, SlotState, AdmissionTransition, owner_id, confirm_admission,
  reject_admission, complete_owner,
}
use taskvisor.Controller.State.{
  Name, OutcomeTx, State, Runtime, RuntimeError, shutting_down, RejectionKind, admission_failed,
  controller_shutting_down, CapacityPending, publish, controller_rejected, slot_transition,
  runtime_failure, send_rejected, finalize_rejected, dispose, dispose_all, store, gc_if_idle,
}
use taskvisor.Controller.Handoff.{Advance, start_next_from_queue, rejection_kind, restore_watcher}

-- `claim_capacity_pending`, for a waiter that `lookup` has shown to be there: its channel, and the
-- controller without both entries.
unfoldable pub claim_capacity : TaskId → State → Option OutcomeTx × State
claim_capacity id st = (
  lookup id st.watchers,
  record st { capacity_pending = remove id st.capacity_pending; watchers = remove id st.watchers },
)

unfoldable pub reject_claimed_capacity :
    TaskId → CapacityPending → Option OutcomeTx → RejectionKind → State → State
unfolding dispose
reject_claimed_capacity id waiting done kind st =
    dispose waiting.pending
      (send_rejected done kind (publish (controller_rejected (some waiting.slot_name) id kind) st))

abbrev pub interrupt_capacity : TaskId → CapacityPending → State → State
interrupt_capacity id waiting st =
    let (done, st') = claim_capacity id st in
    reject_claimed_capacity id waiting done admission_failed st'

-- The tail that the handlers share: start the next submission unless `go` is false, then store or
-- collect the slot, dispose of `first`, and then of the failed handoffs.
unfoldable pub advance_and_store :
    Runtime → Name → SlotState → Bool → List PendingSubmission → State → State
unfolding gc_if_idle dispose_all start_next_from_queue
advance_and_store r name slot go first st =
    let none_started : Advance = record { slot = slot; state = st; drops = [] } in
    let a = if go then start_next_from_queue r name slot st else none_started in
    dispose_all a.drops (dispose_all first (gc_if_idle name a.slot a.state))

abbrev pub is_shutting_down : RuntimeError → Bool
is_shutting_down shutting_down = true
is_shutting_down _ = false

abbrev pub commit_failure_kind : RuntimeError → RejectionKind
commit_failure_kind shutting_down = controller_shutting_down
commit_failure_kind error = rejection_kind error

-- The arms of `match commit`: `none` is a command that was sent.
abbrev pub commit_result :
    Runtime
    → TaskId
    → Name
    → SlotState
    → PendingSubmission
    → Option OutcomeTx
    → State
    → Option RuntimeError
    → State
commit_result r id name slot p _ st none =
    store name slot (record st { admissions = st.admissions ++ (id, name) ∷ [] })
commit_result r id name slot p done st (some error) =
    let kind = commit_failure_kind error in
    let st₁ = publish (controller_rejected (some name) id kind) (restore_watcher id done st) in
    advance_and_store r name (reject_admission slot id).0
      (not (is_shutting_down error) && not (r.down 0) && r.upgrade 1) (p ∷ [])
      (finalize_rejected id kind st₁)

-- The reservation's own error, a dead supervisor, or what the commit says.
abbrev pub commit_decision : Runtime → TaskId → Option RuntimeError → Option RuntimeError
commit_decision r id (some error) = some error
commit_decision r id none = if r.upgrade 0 then r.commit id else some shutting_down

abbrev pub is_owner : TaskId → Option TaskId → Bool
is_owner id none = false
is_owner id (some owner) = owner == id

abbrev pub capacity_in_slot :
    Runtime → TaskId → Option RuntimeError → CapacityPending → State → Option SlotState → State
capacity_in_slot r id decision waiting st none = interrupt_capacity id waiting st
capacity_in_slot r id decision waiting st (some slot) =
    if is_owner id (owner_id slot)
    then (let (done, st') = claim_capacity id st in
        commit_result r id waiting.slot_name slot waiting.pending done st'
          (commit_decision r id decision))
    else interrupt_capacity id waiting st

abbrev pub capacity_waiter :
    Runtime → TaskId → Option RuntimeError → State → Option CapacityPending → State
capacity_waiter r id decision st none = st
capacity_waiter r id decision st (some waiting) =
    capacity_in_slot r id decision waiting st (lookup waiting.slot_name st.slots)

-- `decision` is the reservation's error, `none` for a permit.
unfoldable pub handle_registry_capacity_result :
    Runtime → TaskId → Option RuntimeError → State → State
unfolding claim_capacity reject_claimed_capacity advance_and_store owner_id reject_admission store
    finalize_rejected rejection_kind
handle_registry_capacity_result r id decision st =
    capacity_waiter r id decision st (lookup id st.capacity_pending)

abbrev pub track_completion : TaskId → Name → State → State
track_completion id name st = record st { completions = st.completions ++ (id, name) ∷ [] }

abbrev pub confirmed : Runtime → TaskId → Name → State → SlotState × AdmissionTransition → State
confirmed r id name st (slot, AdmissionTransition.now_running) =
    store name slot (publish (slot_transition name) (track_completion id name st))
confirmed r id name st (slot, AdmissionTransition.remove_now owner) =
    let st₁ = store name slot (track_completion id name st) in
    if r.upgrade 0 then record st₁ { removals = st₁.removals ++ (owner, name) ∷ [] } else st₁
confirmed r id name st (slot, AdmissionTransition.stale) = st

abbrev pub refused_admission : Runtime → TaskId → Name → State → SlotState × Bool → State
refused_admission r id name st (slot, false) = st
refused_admission r id name st (slot, true) =
    advance_and_store r name slot (not (r.down 0) && r.upgrade 0) [] st

-- `accepted` is whether the registry's Add decision is `Ok`.
abbrev pub decide_in_slot : Runtime → TaskId → Name → Bool → State → Option SlotState → State
decide_in_slot r id name accepted st none = st
decide_in_slot r id name true st (some slot) =
    confirmed r id name st (confirm_admission slot id r.now)
decide_in_slot r id name false st (some slot) =
    refused_admission r id name st (reject_admission slot id)

unfoldable pub handle_admission_result : Runtime → TaskId → Name → Bool → State → State
unfolding confirm_admission reject_admission store advance_and_store
handle_admission_result r id name accepted st =
    decide_in_slot r id name accepted st (lookup name st.slots)

abbrev pub completed_owner : Runtime → Name → State → SlotState × Bool → State
completed_owner r name st (slot, false) = st
completed_owner r name st (slot, true) = advance_and_store r name slot (not (r.down 0)) [] st

abbrev pub complete_in_slot : Runtime → TaskId → Name → State → Option SlotState → State
complete_in_slot r id name st none = st
complete_in_slot r id name st (some slot) = completed_owner r name st (complete_owner slot id)

unfoldable pub handle_completion_result : Runtime → TaskId → Name → State → State
unfolding complete_owner advance_and_store
handle_completion_result r id name st =
    if r.upgrade 0 then complete_in_slot r id name st (lookup name st.slots) else st

abbrev pub report_removal : TaskId → Bool → State → Option SlotState → State
report_removal id failed st none = st
report_removal id failed st (some slot) =
    if is_owner id (owner_id slot) && failed then publish (runtime_failure id) st else st

-- `failed` is whether the removal's decision is `Err`.
unfoldable pub handle_removal_result : TaskId → Name → Bool → State → State
unfolding owner_id
handle_removal_result id name failed st = report_removal id failed st (lookup name st.slots)
