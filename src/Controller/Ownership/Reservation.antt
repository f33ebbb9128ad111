-- ===== src/Controller/Ownership/Reservation.antt =====
-- The invariant across the result of a capacity reservation,
-- src/controller/engine/admission/capacity.rs.
use taskvisor.Prelude.{◌≡◌, refl, true, Option, none, some, [], ◌∷◌, arith, lookup}
use taskvisor.Slot.{TaskId, PendingSubmission, SlotState, owner_id, reject_admission}
use taskvisor.Controller.State.{
  Name, OutcomeTx, State, Runtime, RuntimeError, CapacityPending, finalize_rejected,
}
use taskvisor.Controller.Results.{
  claim_capacity, handle_registry_capacity_result, capacity_waiter, capacity_in_slot, commit_result,
  commit_decision, is_owner,
}
use taskvisor.Controller.Ownership.{Consistent, IsFresh, slot_at}
use taskvisor.Controller.Ownership.Waits.{claim-Owned, claim-Absent, commit-Owned}
use taskvisor.Controller.Ownership.Close.{
  Held, lock-Held, store-Consistent, advance_and_store-Consistent, framed-Held,
}
use taskvisor.Controller.Ownership.Results.{reject_admission-Held}

commit_result-Consistent :
    (r : Runtime) (id : TaskId) (name : Name) (slot : SlotState) (p : PendingSubmission)
    (tx : Option OutcomeTx) (st : State) (e : Option RuntimeError)
    → IsFresh id st
    → Held name slot st
    → Consistent (commit_result r id name slot p tx st e)
unfolding finalize_rejected
commit_result-Consistent r id name slot p tx st none fresh h = store-Consistent name slot _ (
    framed-Held name slot slot st _ h
      (commit-Owned st.config.max_total_pending (slot_at st.slots) name slot.phase slot.queue
        st.queued_slots st.capacity_pending st.admissions id name fresh h.owned)
      (refl, refl))
commit_result-Consistent r id name slot p tx st (some error) fresh h =
    let slot' = (reject_admission slot id).0 in
    advance_and_store-Consistent r name slot' _ (p ∷ []) _ (
      framed-Held name slot' slot' st _ (reject_admission-Held name slot id st fresh h)
        (reject_admission-Held name slot id st fresh h).owned (refl, refl))

pub claim-Held :
    (name : Name) (slot : SlotState) (id : TaskId) (st : State)
    → Held name slot st
    → Held name slot (claim_capacity id st).1
unfolding claim_capacity
claim-Held name slot id st h =
    framed-Held name slot slot st (claim_capacity id st).1 h
      (claim-Owned st.config.max_total_pending (slot_at st.slots) name slot.phase slot.queue
        st.queued_slots st.capacity_pending st.admissions id h.owned)
      (refl, refl)

pub claim-IsFresh :
    (name : Name) (slot : SlotState) (id : TaskId) (st : State) {w : CapacityPending}
    → lookup id st.capacity_pending ≡ some w
    → Held name slot st
    → IsFresh id (claim_capacity id st).1
unfolding claim_capacity
claim-IsFresh name slot id st e h =
    claim-Absent st.config.max_total_pending (slot_at st.slots) name slot.phase slot.queue
      st.queued_slots st.capacity_pending st.admissions id e h.owned

-- What `Consistent` says of a waiter's slot: it is there, and the waiter owns it.
waiter_owns :
    (id : TaskId) (w : CapacityPending) (st : State) (o : Option SlotState)
    → lookup id st.capacity_pending ≡ some w
    → lookup w.slot_name st.slots ≡ o
    → Consistent st
    → (slot : SlotState) × (o ≡ some slot) × (is_owner id (owner_id slot) ≡ true)
unfolding owner_id
waiter_owns id w st none e k c = absurd (ground (arith, c.owned.waits id))
waiter_owns id w st (some slot) e k c = (slot, refl, ground (arith, c.owned.waits id))

capacity_in_slot-Consistent :
    (r : Runtime) (id : TaskId) (decision : Option RuntimeError) (w : CapacityPending) (st : State)
    (o : Option SlotState)
    → lookup id st.capacity_pending ≡ some w
    → lookup w.slot_name st.slots ≡ o
    → Consistent st
    → Consistent (capacity_in_slot r id decision w st o)
capacity_in_slot-Consistent r id decision w st none e k c =
    absurd (cc (waiter_owns id w st none e k c).1)
capacity_in_slot-Consistent r id decision w st (some slot) e k c =
    let h = lock-Held w.slot_name slot st k c in
    rw (owner e k c) (
      commit_result-Consistent r id w.slot_name slot w.pending (claim_capacity id st).0
        (claim_capacity id st).1 (commit_decision r id decision)
        (claim-IsFresh w.slot_name slot id st e h) (claim-Held w.slot_name slot id st h))
  where
    owner :
        lookup id st.capacity_pending ≡ some w
        → lookup w.slot_name st.slots ≡ some slot
        → Consistent st
        → is_owner id (owner_id slot) ≡ true
    owner e k c = ground (arith, waiter_owns id w st (some slot) e k c)

capacity_waiter-Consistent :
    (r : Runtime) (id : TaskId) (decision : Option RuntimeError) (st : State)
    (o : Option CapacityPending)
    → lookup id st.capacity_pending ≡ o
    → Consistent st
    → Consistent (capacity_waiter r id decision st o)
capacity_waiter-Consistent r id decision st none e c = c
capacity_waiter-Consistent r id decision st (some w) e c =
    capacity_in_slot-Consistent r id decision w st (lookup w.slot_name st.slots) e refl c

-- The result of a capacity reservation keeps the controller consistent.
pub handle_registry_capacity_result-Consistent :
    (r : Runtime) (id : TaskId) (decision : Option RuntimeError) (st : State)
    → Consistent st
    → Consistent (handle_registry_capacity_result r id decision st)
unfolding handle_registry_capacity_result
handle_registry_capacity_result-Consistent r id decision st c =
    capacity_waiter-Consistent r id decision st (lookup id st.capacity_pending) refl c
