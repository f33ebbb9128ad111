-- ===== src/Slot/Phases.antt =====
-- What the transitions of src/controller/engine/state/slot.rs keep, and the diagram at its head.
use taskvisor.Prelude.{
  ℕ, ◌≡◌, refl, ◌⊎◌, Bool, false, Option, none, some, List, [], ◌∷◌, arith, ◌≢◌, All, ◌==◌,
  if◌then◌else◌, not, ◌+◌, ◌≤◌,
}
use taskvisor.Slot.{
  TaskId, Instant, SlotPhase, idle, admitting, cancel_pending_admission, running, terminating,
  SlotState, owner_id, begin_admission, request_replacement, confirm_admission, reject_admission,
  complete_owner, AdmissionTransition, ReplaceAction,
}

-- What the environment tells a slot: the calls of the controller loop.
pub data Signal : Type 0 where
  starts : TaskId → Instant → Signal
  replaced : Instant → Signal
  accepted : TaskId → Instant → Signal
  rejected completed : TaskId → Signal

pub apply : SlotState → Signal → SlotState
apply s (starts id t) = (begin_admission s id t).0
apply s (replaced t) = (request_replacement s t).0
apply s (accepted id t) = (confirm_admission s id t).0
apply s (rejected id) = (reject_admission s id).0
apply s (completed id) = (complete_owner s id).0

-- The arrows of the diagram, for one owner.
infix 40 ◌⟶◌
pub data ◌⟶◌ : SlotPhase → SlotPhase → Type 0 where
  admit : (id : TaskId) (t : Instant) → idle ⟶ admitting id t
  accept : (id : TaskId) (t u : Instant) → admitting id t ⟶ running id u
  refuse : (id : TaskId) (t : Instant) → admitting id t ⟶ idle
  replace_early : (id : TaskId) (t u : Instant) → admitting id t ⟶ cancel_pending_admission id u
  refuse_late : (id : TaskId) (t : Instant) → cancel_pending_admission id t ⟶ idle
  accept_late : (id : TaskId) (t : Instant) → cancel_pending_admission id t ⟶ terminating id t
  finish : (id : TaskId) (t : Instant) → running id t ⟶ idle
  replace : (id : TaskId) (t u : Instant) → running id t ⟶ terminating id u
  release : (id : TaskId) (t : Instant) → terminating id t ⟶ idle

-- A signal leaves the phase alone or follows one arrow of the diagram at the head of slot.rs, and
-- it never touches the pending queue.
pub apply-⟶ :
    (s : SlotState) (e : Signal)
    → (((apply s e).phase ≡ s.phase) ⊎ (s.phase ⟶ (apply s e).phase))
      × ((apply s e).queue ≡ s.queue)
unfolding apply begin_admission request_replacement confirm_admission reject_admission
    complete_owner
apply-⟶ s e = (
  grind (
    arith, admit, accept, refuse, replace_early, refuse_late, accept_late, finish, replace, release,
  ),
  ground arith,
)

-- Every arrow of the diagram is taken by some signal, whatever is queued.
pub ⟶-apply :
    (s : SlotState) {p : SlotPhase}
    → s.phase ⟶ p
    → (e : Signal) × (apply s e ≡ record s { phase = p })
unfolding apply begin_admission request_replacement confirm_admission reject_admission
    complete_owner
⟶-apply s {p} step = arrow s s.phase p refl step
  where
    arrow :
        (s : SlotState) (from to : SlotPhase)
        → s.phase ≡ from
        → from ⟶ to
        → (e : Signal) × (apply s e ≡ record s { phase = to })
    arrow s from to e (admit id t) = (starts id t, ground arith)
    arrow s from to e (accept id t u) = (accepted id u, ground arith)
    arrow s from to e (refuse id t) = (rejected id, ground arith)
    arrow s from to e (replace_early id t u) = (replaced u, ground arith)
    arrow s from to e (refuse_late id t) = (rejected id, ground arith)
    arrow s from to e (accept_late id t) = (accepted id t, ground arith)
    arrow s from to e (finish id t) = (completed id, ground arith)
    arrow s from to e (replace id t u) = (replaced u, ground arith)
    arrow s from to e (release id t) = (completed id, ground arith)

-- The task that a signal reports on, for the three that come back from the runtime.
abbrev pub reports : Signal → Option TaskId
reports (starts id t) = none
reports (replaced t) = none
reports (accepted id t) = some id
reports (rejected id) = some id
reports (completed id) = some id

-- A report on a task that does not own the slot changes nothing: neither phase nor queue.
pub apply_stale :
    (s : SlotState) (e : Signal) (id : TaskId)
    → reports e ≡ some id
    → owner_id s ≢ some id
    → apply s e ≡ s
unfolding apply owner_id begin_admission request_replacement confirm_admission reject_admission
    complete_owner
apply_stale s e id h other = ground arith

pub apply_all : SlotState → List Signal → SlotState
apply_all s [] = s
apply_all s (e ∷ es) = apply_all (apply s e) es

-- Whether a signal can end the tenure of an owner.
abbrev pub ends : TaskId → Signal → Bool
ends id (rejected other) = other == id
ends id (completed other) = other == id
ends id _ = false

apply_owned :
    (s : SlotState) (e : Signal) (id : TaskId)
    → owner_id s ≡ some id
    → ends id e ≡ false
    → owner_id (apply s e) ≡ some id
unfolding apply owner_id begin_admission request_replacement confirm_admission reject_admission
    complete_owner
apply_owned s e id h k = ground arith

-- An owner keeps its slot through any signals, in any order, until its own rejection or its own
-- physical completion: replacement and reports on other tasks never free the slot.
pub apply_all_owned :
    (s : SlotState) (es : List Signal) (id : TaskId)
    → owner_id s ≡ some id
    → All (λ e. ends id e ≡ false) es
    → owner_id (apply_all s es) ≡ some id
unfolding apply_all
apply_all_owned s [] id h k = h
apply_all_owned s (e ∷ es) id h k = apply_all_owned (apply s e) es id (apply_owned s e id h k.0) k.1

-- For the owner of a slot exactly one of completion and rejection takes effect, as its admission
-- is decided or not, and the other changes nothing.
pub tenure_order :
    (s : SlotState) (id : TaskId)
    → owner_id s ≡ some id
    → ((complete_owner s id).1 ≡ not (reject_admission s id).1)
      × ((complete_owner s id).1 ≡ false → (complete_owner s id).0 ≡ s)
      × ((reject_admission s id).1 ≡ false → (reject_admission s id).0 ≡ s)
unfolding owner_id reject_admission complete_owner
tenure_order s id h = ground arith

-- The task whose removal a signal makes the controller order.
abbrev pub removal_of_action : ReplaceAction → Option TaskId
removal_of_action (ReplaceAction.remove_now id) = some id
removal_of_action _ = none

abbrev pub removal_of_transition : AdmissionTransition → Option TaskId
removal_of_transition (AdmissionTransition.remove_now id) = some id
removal_of_transition _ = none

orders_removal : SlotState → Signal → Option TaskId
orders_removal s (replaced t) = removal_of_action (request_replacement s t).1
orders_removal s (accepted id t) = removal_of_transition (confirm_admission s id t).1
orders_removal s _ = none

abbrev pub is_task : TaskId → Option TaskId → ℕ
is_task id none = 0
is_task id (some other) = if other == id then 1 else 0

pub removal_count : TaskId → SlotState → List Signal → ℕ
removal_count id s [] = 0
removal_count id s (e ∷ es) = is_task id (orders_removal s e) + removal_count id (apply s e) es

abbrev pub starts_task : TaskId → Signal → ℕ
starts_task id (starts other t) = if other == id then 1 else 0
starts_task id _ = 0

pub start_count : TaskId → List Signal → ℕ
start_count id [] = 0
start_count id (e ∷ es) = starts_task id e + start_count id es

-- One more removal may be ordered for an owner that is not yet terminating.
abbrev pub removable : TaskId → SlotPhase → ℕ
removable id (admitting owner t) = if owner == id then 1 else 0
removable id (cancel_pending_admission owner t) = if owner == id then 1 else 0
removable id (running owner t) = if owner == id then 1 else 0
removable id _ = 0

removable-apply :
    (id : TaskId) (s : SlotState) (e : Signal)
    → is_task id (orders_removal s e) + removable id (apply s e).phase
      ≤ removable id s.phase + starts_task id e
unfolding apply orders_removal begin_admission request_replacement confirm_admission
    reject_admission complete_owner
removable-apply id s e = ground arith

-- Removal of a task is ordered at most once for each time that the task starts in the slot, and
-- once for the start that a slot not yet terminating has seen: replacing the same owner twice, or
-- before its admission, never orders a second removal.
pub removal_count-le :
    (id : TaskId) (s : SlotState) (es : List Signal)
    → removal_count id s es ≤ removable id s.phase + start_count id es
unfolding removal_count start_count
removal_count-le id s [] = omega arith
removal_count-le id s (e ∷ es) =
    omega (arith, removable-apply id s e, removal_count-le id (apply s e) es)
