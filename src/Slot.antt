-- ===== src/Slot.antt =====
-- src/controller/engine/state/slot.rs: the owner phase and the pending queue of one controller
-- slot. A `TaskId` is a number, an `Instant` a number of time units; `OwnedTask` is the task value
-- with its cleanup reservation, which the controller moves and never opens: a number that names it.
pub mod Phases
use taskvisor.Prelude.{
  ℕ, Bool, true, false, Option, none, some, List, [], ◌==◌, if◌then◌else◌, map, ◌&&◌,
}

abbrev pub TaskId : Type 0
TaskId = ℕ

abbrev pub Instant : Type 0
Instant = ℕ

pub record PendingSubmission : Type 0 where
  pub id : TaskId
  pub task_name : ℕ
  pub owned : ℕ

pub data SlotPhase : Type 0 where
  idle : SlotPhase
  admitting : TaskId → Instant → SlotPhase
  cancel_pending_admission : TaskId → Instant → SlotPhase
  running : TaskId → Instant → SlotPhase
  terminating : TaskId → Instant → SlotPhase

pub record SlotState : Type 0 where
  pub phase : SlotPhase
  pub queue : List PendingSubmission

pub data ReplaceAction : Type 0 where
  remove_now : TaskId → ReplaceAction
  wait_for_admission already_requested slot_idle : ReplaceAction

pub data AdmissionTransition : Type 0 where
  now_running stale : AdmissionTransition
  remove_now : TaskId → AdmissionTransition

-- `SlotPhase::owner_id`.
unfoldable pub phase_owner : SlotPhase → Option TaskId
phase_owner idle = none
phase_owner (admitting owner since) = some owner
phase_owner (cancel_pending_admission owner requested_at) = some owner
phase_owner (running owner started_at) = some owner
phase_owner (terminating owner requested_at) = some owner

-- `SlotPhase::label`, the text as a value.
pub data Label : Type 0 where
  idle_label admitting_label running_label terminating_label : Label

unfoldable pub label : SlotPhase → Label
label idle = idle_label
label (admitting owner since) = admitting_label
label (running owner started_at) = running_label
label (cancel_pending_admission owner requested_at) = terminating_label
label (terminating owner requested_at) = terminating_label

unfoldable pub new : SlotState
new = record { phase = idle; queue = [] }

unfoldable pub owner_id : SlotState → Option TaskId
unfolding phase_owner
owner_id s = phase_owner s.phase

abbrev pub is_idle_phase : SlotPhase → Bool
is_idle_phase idle = true
is_idle_phase _ = false

unfoldable pub is_idle : SlotState → Bool
is_idle s = is_idle_phase s.phase

unfoldable pub begin_admission : SlotState → TaskId → Instant → SlotState × Bool
unfolding is_idle
begin_admission s owner since =
    if is_idle s then (record s { phase = admitting owner since }, true) else (s, false)

abbrev pub replacement : SlotPhase → Instant → SlotPhase × ReplaceAction
replacement idle t = (idle, ReplaceAction.slot_idle)
replacement (admitting owner since) t =
    (cancel_pending_admission owner t, ReplaceAction.wait_for_admission)
replacement (running owner started_at) t = (terminating owner t, ReplaceAction.remove_now owner)
replacement (cancel_pending_admission owner r) t =
    (cancel_pending_admission owner r, ReplaceAction.already_requested)
replacement (terminating owner r) t = (terminating owner r, ReplaceAction.already_requested)

unfoldable pub request_replacement : SlotState → Instant → SlotState × ReplaceAction
request_replacement s requested_at =
    let (phase, action) = replacement s.phase requested_at in (record s { phase = phase }, action)

abbrev pub confirmation : SlotPhase → TaskId → Instant → SlotPhase × AdmissionTransition
confirmation (admitting current since) owner t =
    if current == owner
    then (running owner t, AdmissionTransition.now_running)
    else (admitting current since, AdmissionTransition.stale)
confirmation (cancel_pending_admission current r) owner t =
    if current == owner
    then (terminating owner r, AdmissionTransition.remove_now owner)
    else (cancel_pending_admission current r, AdmissionTransition.stale)
confirmation phase owner t = (phase, AdmissionTransition.stale)

unfoldable pub confirm_admission : SlotState → TaskId → Instant → SlotState × AdmissionTransition
confirm_admission s owner started_at =
    let (phase, transition) = confirmation s.phase owner started_at in
    (record s { phase = phase }, transition)

-- The `matches!` of `reject_admission`.
abbrev pub awaits_decision : SlotPhase → TaskId → Bool
awaits_decision (admitting current since) owner = current == owner
awaits_decision (cancel_pending_admission current r) owner = current == owner
awaits_decision _ owner = false

unfoldable pub reject_admission : SlotState → TaskId → SlotState × Bool
reject_admission s owner =
    let matches_current = awaits_decision s.phase owner in
    (if matches_current then record s { phase = idle } else s, matches_current)

-- The `matches!` of `complete_owner`.
abbrev pub holds_accepted : SlotPhase → TaskId → Bool
holds_accepted (running current started_at) owner = current == owner
holds_accepted (terminating current r) owner = current == owner
holds_accepted _ owner = false

unfoldable pub complete_owner : SlotState → TaskId → SlotState × Bool
complete_owner s owner =
    let matches_current = holds_accepted s.phase owner in
    (if matches_current then record s { phase = idle } else s, matches_current)
