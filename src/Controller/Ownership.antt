-- ===== src/Controller/Ownership.antt =====
-- Who owns a submission, across the indexes of src/controller/engine/state/mod.rs: the slot queues
-- and their reverse index, the capacity waiters, and the Add commands that await a reply. The
-- children follow `Owned` through the operations and handlers.
pub mod Moves
pub mod Waits
pub mod Handoff
pub mod Advance
pub mod Close
pub mod Results
pub mod Reservation
pub mod Placement
pub mod Submission
pub mod Identity
pub mod Loop
use taskvisor.Prelude.{
  ℕ, suc, ◌+◌, ◌≤◌, ◌≡◌, Bool, true, false, Option, none, some, List, [], ◌∷◌, ◌==◌, if◌then◌else◌,
  length, Map, IsMap, lookup, Within,
}
use taskvisor.Slot.{TaskId, PendingSubmission, SlotPhase, SlotState, new, awaits_decision}
use taskvisor.Controller.State.{Name, CapacityPending, State, Config}

abbrev pub one {ℓ} : {A : Type ℓ} → Option A → ℕ
one none = 0
one (some a) = 1

-- How often a task stands in a queue.
unfoldable pub count_id : TaskId → List PendingSubmission → ℕ
count_id a [] = 0
count_id a (p ∷ ps) = let rest = count_id a ps in if p.id == a then suc rest else rest

-- How many tracked futures are about a task.
unfoldable pub count_tracked : TaskId → List (TaskId × Name) → ℕ
count_tracked a [] = 0
count_tracked a ((i, n) ∷ rest) =
    let more = count_tracked a rest in if i == a then suc more else more

abbrev pub at_slot : Name → Option Name → ℕ
at_slot n none = 0
at_slot n (some m) = if m == n then 1 else 0

abbrev pub Waits : (Name → SlotState) → TaskId → Option CapacityPending → Type 0
Waits view a none = Unit {0}
Waits view a (some w) = awaits_decision (view w.slot_name).phase a ≡ true

-- `view` is what stands in each slot, the slot that a handler has locked included.
pub record Owned (limit : Option ℕ) (view : Name → SlotState) (index : Map Name)
    (waiting : Map CapacityPending) (admissions : List (TaskId × Name)) : Type 0 where
  pub index_map : IsMap index
  pub waiting_map : IsMap waiting
  -- A task stands in a queue exactly where the reverse index says, and once.
  pub counts : (n : Name) (a : TaskId) → count_id a (view n).queue ≡ at_slot n (lookup a index)
  -- A task is queued, waits for capacity or awaits a reply, and only one of these, once.
  pub once :
      (a : TaskId) → one (lookup a index) + one (lookup a waiting) + count_tracked a admissions ≤ 1
  -- The aggregate pending limit.
  pub bounded : Within limit (length index + length waiting)
  -- A capacity waiter owns its slot, which awaits the registry's decision on it.
  pub waits : (a : TaskId) → Waits view a (lookup a waiting)

abbrev pub mk : SlotPhase → List PendingSubmission → SlotState
mk phase queue = record { phase = phase; queue = queue }

abbrev pub put : (Name → SlotState) → Name → SlotState → Name → SlotState
put view name slot n = if name == n then slot else view n

abbrev pub or_new : Option SlotState → SlotState
or_new none = mk SlotPhase.idle []
or_new (some slot) = slot

abbrev pub slot_at : Map SlotState → Name → SlotState
slot_at slots n = or_new (lookup n slots)

-- `Owned` while a handler holds the lock of `name`, where `slot` stands.
abbrev pub OwnedIn : Name → SlotState → State → Type 0
OwnedIn name slot st =
    Owned st.config.max_total_pending (put (slot_at st.slots) name slot) st.queued_slots
      st.capacity_pending st.admissions

-- The invariant between two inputs of the loop.
pub record Consistent (st : State) : Type 0 where
  pub owned :
      Owned st.config.max_total_pending
        (slot_at st.slots)
        st.queued_slots
        st.capacity_pending
        st.admissions
  pub slots_map : IsMap st.slots
  pub slots_bounded : Within st.config.max_controller_slots (length st.slots)

-- The controller holds nothing of a task.
abbrev pub Absent : TaskId → Map Name → Map CapacityPending → List (TaskId × Name) → Type 0
Absent a index waiting admissions =
    one (lookup a index) + one (lookup a waiting) + count_tracked a admissions ≡ 0

abbrev pub IsFresh : TaskId → State → Type 0
IsFresh a st = Absent a st.queued_slots st.capacity_pending st.admissions
