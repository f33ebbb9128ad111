-- ===== src/Controller/Placement.antt =====
-- src/controller/engine/admission/placement.rs: the admission policy, applied to a locked slot.
-- The watcher of the submission is parked when `apply` runs, so `watcher.commit()` only disarms the
-- guard (`Controller/Submission.antt`); it has no effect on the controller.
pub mod Policies
use taskvisor.Prelude.{
  ℕ, Bool, true, false, Option, none, some, List, [], ◌∷◌, ◌++◌, if◌then◌else◌, length,
}
use taskvisor.Slot.{
  TaskId, PendingSubmission, SlotPhase, idle, admitting, cancel_pending_admission, running,
  terminating, SlotState, ReplaceAction, request_replacement,
}
use taskvisor.Controller.State.{
  Name, State, Runtime, RuntimeError, RejectionKind, resource_limit, queue_full, slot_busy, publish,
  controller_submitted, slot_transition,
}
use taskvisor.Controller.Queue
use taskvisor.Controller.Queue.{try_push_queued, try_replace_head_or_push}
use taskvisor.Controller.Handoff.{Started, started, refused, start_in_slot, rejection_kind}

-- controller/policy.rs.
pub data AdmissionPolicy : Type 0 where
  drop_if_running replace queue : AdmissionPolicy

-- `PlacementOutcome`, with the slot and the controller that `apply` leaves behind it.
pub data Placement : Type 0 where
  accepted : SlotState → State → Option PendingSubmission → Placement
  rejected : PendingSubmission → RejectionKind → SlotState → State → Placement
  handoff_failed : PendingSubmission → RejectionKind → SlotState → State → Placement

abbrev pub admitted : Name → TaskId → SlotState → Started → Placement
admitted name id slot (started slot' st) =
    accepted slot' (publish (controller_submitted name id) st) none
admitted name id slot (refused error p st) = handoff_failed p (rejection_kind error) slot st

unfoldable pub admit_idle : Runtime → Name → SlotState → PendingSubmission → State → Placement
unfolding start_in_slot rejection_kind
admit_idle r name slot p st = admitted name p.id slot (start_in_slot r name slot p st)

-- The removal that `replace` tracks for an action.
abbrev pub removal_for : Name → ReplaceAction → List (TaskId × Name)
removal_for name (ReplaceAction.remove_now owner) = (owner, name) ∷ []
removal_for name _ = []

abbrev pub track_removal : Name → ReplaceAction → State → State
track_removal name action st = record st { removals = st.removals ++ removal_for name action }

-- What `replace` does once the queue has taken the submission, for each phase of the owner.
abbrev pub retire_owner : Runtime → Name → SlotPhase → SlotState → State → SlotState × State
retire_owner r name (running owner t) slot st =
    let (slot', action) = request_replacement slot r.now in
    (slot', publish (slot_transition name) (track_removal name action st))
retire_owner r name (admitting owner t) slot st =
    let (slot', action) = request_replacement slot r.now in
    (slot', publish (slot_transition name) st)
retire_owner r name _ slot st = (slot, st)

abbrev pub replaced :
    Runtime
    → Name
    → PendingSubmission
    → SlotState
    → State
    → Option (SlotState × State × Option PendingSubmission)
    → Placement
replaced r name p slot st none = rejected p resource_limit slot st
replaced r name p slot st (some (slot₁, st₁, displaced)) =
    let (slot₂, st₂) = retire_owner r name slot₁.phase slot₁ st₁ in
    accepted slot₂ (publish (controller_submitted name p.id) st₂) displaced

unfoldable pub replace_owner : Runtime → Name → SlotState → PendingSubmission → State → Placement
unfolding try_replace_head_or_push request_replacement
replace_owner r name slot p st = replaced r name p slot st (try_replace_head_or_push slot name p st)

abbrev pub queued_behind :
    Name → PendingSubmission → SlotState → State → Option (SlotState × State) → Placement
queued_behind name p slot st none = rejected p resource_limit slot st
queued_behind name p slot st (some (slot', st')) =
    accepted slot' (publish (controller_submitted name p.id) st') none

unfoldable pub queue_submission : Name → SlotState → PendingSubmission → State → Placement
unfolding try_push_queued Queue.queue_full
queue_submission name slot p st =
    if Queue.queue_full st (length slot.queue)
    then rejected p queue_full slot st
    else queued_behind name p slot st (try_push_queued slot name p st)

abbrev pub by_policy :
    Runtime → Name → AdmissionPolicy → SlotState → PendingSubmission → State → Placement
by_policy r name replace slot p st = replace_owner r name slot p st
by_policy r name queue slot p st = queue_submission name slot p st
by_policy r name drop_if_running slot p st = rejected p slot_busy slot st

abbrev pub by_phase :
    Runtime → Name → SlotPhase → AdmissionPolicy → SlotState → PendingSubmission → State → Placement
by_phase r name idle policy slot p st = admit_idle r name slot p st
by_phase r name _ policy slot p st = by_policy r name policy slot p st

-- `SlotPlacement::apply`.
unfoldable pub apply :
    Runtime → Name → AdmissionPolicy → SlotState → PendingSubmission → State → Placement
unfolding admit_idle replace_owner queue_submission
apply r name policy slot p st = by_phase r name slot.phase policy slot p st
