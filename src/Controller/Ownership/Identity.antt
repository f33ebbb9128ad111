-- ===== src/Controller/Ownership/Identity.antt =====
-- The invariant across `handle_identity_operation`, src/controller/engine/identity.rs.
use taskvisor.Prelude.{
  ◌≡◌, refl, inl, inr, Bool, true, false, Option, none, some, List, [], ◌∷◌, arith, lookup,
  Bool-cases,
}
use taskvisor.Slot.{TaskId, PendingSubmission, SlotState, reject_admission}
use taskvisor.Controller.State.{Name, State, Runtime, CapacityPending, finalize_rejected}
use taskvisor.Controller.Queue.{find_queued, remove_queued, remove_queued_at, unindex_queued}
use taskvisor.Controller.Results.{claim_capacity}
use taskvisor.Controller.Identity.{
  claim_waiter, from_queue, in_slot, at_route, route, follow, remove_queued_submission, to_registry,
  handle_identity_operation,
}
use taskvisor.Controller.Ownership.{Consistent, IsFresh, slot_at, count_id}
use taskvisor.Controller.Ownership.Waits.{remove_queued-Owned}
use taskvisor.Controller.Ownership.Close.{
  Held, lock-Held, gc_if_idle-Consistent, dispose-Consistent, advance_and_store-Consistent,
  framed-Held,
}
use taskvisor.Controller.Ownership.Reservation.{claim-Held, claim-IsFresh}
use taskvisor.Controller.Ownership.Results.{reject_admission-Held, same-Consistent}

-- A task that the index places in a slot is found in that slot's queue.
find_queued-count :
    (id : TaskId) (ps : List PendingSubmission) → find_queued id ps ≡ none → count_id id ps ≡ 0
unfolding find_queued count_id
find_queued-count id [] e = refl
find_queued-count id (p ∷ ps) e = ground (arith, find_queued-count id ps)

-- The indexes never point to a slot that is not there.
routed_slot :
    (id : TaskId) (name : Name) (st : State) (o : Option CapacityPending)
    → lookup id st.capacity_pending ≡ o
    → lookup name st.slots ≡ none
    → route id st o ≡ some name
    → Consistent st
    → ⊥
unfolding count_id
routed_slot id name st none w e k c = ground (arith, c.owned.counts name id)
routed_slot id name st (some waiting) w e k c = ground (arith, c.owned.waits id)

claim_waiter-Held :
    (id : TaskId) (w : CapacityPending) (name : Name) (slot : SlotState) (st : State)
    → Held name slot st
    → Held name slot (claim_waiter id w st)
unfolding claim_capacity
claim_waiter-Held id w name slot st h =
    let k = claim-Held name slot id st h in
    framed-Held name slot slot st (claim_waiter id w st) h k.owned (refl, refl)

claim_waiter-IsFresh :
    (id : TaskId) (w : CapacityPending) (name : Name) (slot : SlotState) (st : State)
    → lookup id st.capacity_pending ≡ some w
    → Held name slot st
    → IsFresh id (claim_waiter id w st)
unfolding claim_capacity
claim_waiter-IsFresh id w name slot st e h = claim-IsFresh name slot id st e h

module _ (r : Runtime) (id : TaskId) (name : Name) (slot : SlotState) (st : State) where
  from_queue-Consistent :
      (o : Option PendingSubmission)
      → find_queued id slot.queue ≡ o
      → lookup id st.queued_slots ≡ some name
      → Held name slot st
      → Consistent (from_queue id name slot st o).1
  unfolding count_id remove_queued_at unindex_queued finalize_rejected
  from_queue-Consistent none e k h =
      absurd (ground (arith, find_queued-count id slot.queue, h.owned.counts name id))
  from_queue-Consistent (some p) e k h =
      let slot' : SlotState = record slot { queue = remove_queued id slot.queue } in
      dispose-Consistent p _ (
        gc_if_idle-Consistent name slot' _ (
          framed-Held name slot slot' st _ h
            (remove_queued-Owned st.config.max_total_pending (slot_at st.slots) name slot.phase
              slot.queue st.queued_slots st.capacity_pending st.admissions id e h.owned)
            (refl, refl)))

  in_slot-Consistent :
      (o : Option CapacityPending)
      → lookup id st.capacity_pending ≡ o
      → route id st o ≡ some name
      → Held name slot st
      → Consistent (in_slot r id name slot st o).1
  in_slot-Consistent none e k h = from_queue-Consistent (find_queued id slot.queue) refl k h
  in_slot-Consistent (some w) e k h =
      advance_and_store-Consistent r name (reject_admission slot id).0 (r.upgrade 0)
        (w.pending ∷ []) (claim_waiter id w st)
        (reject_admission-Held name slot id (claim_waiter id w st)
          (claim_waiter-IsFresh id w name slot st e h) (claim_waiter-Held id w name slot st h))

module _ (r : Runtime) (id : TaskId) (st : State) (c : Consistent st) where
  at_route-Consistent :
      (name : Name) (o : Option SlotState)
      → lookup name st.slots ≡ o
      → route id st (lookup id st.capacity_pending) ≡ some name
      → Consistent (at_route r id st name o).1
  at_route-Consistent name none e k =
      absurd (routed_slot id name st (lookup id st.capacity_pending) refl e k c)
  at_route-Consistent name (some slot) e k = elim (Bool-cases (r.down 1)) [
    | inl down ↦ rw down c
    | inr up ↦ rw up (
        in_slot-Consistent r id name slot st (lookup id st.capacity_pending) refl k
          (lock-Held name slot st e c))
  ]

  follow-Consistent :
      (o : Option Name)
      → route id st (lookup id st.capacity_pending) ≡ o
      → Consistent (follow r id st o).1
  follow-Consistent none e = c
  follow-Consistent (some name) e = at_route-Consistent name (lookup name st.slots) refl e

  remove_queued_submission-Consistent : Consistent (remove_queued_submission r id st).1
  unfolding remove_queued_submission
  remove_queued_submission-Consistent =
      follow-Consistent (route id st (lookup id st.capacity_pending)) refl

to_registry-Consistent :
    (r : Runtime) (x : Bool × State) → Consistent x.1 → Consistent (to_registry r x).0
to_registry-Consistent r (true, st) c = c
to_registry-Consistent r (false, st) c =
    same-Consistent st (to_registry r (false, st)).0 (ground arith) (ground arith) (ground arith)
      (ground arith) (ground arith) c

-- Removing or cancelling by identity keeps the controller consistent.
pub handle_identity_operation-Consistent :
    (r : Runtime) (id : TaskId) (st : State)
    → Consistent st
    → Consistent (handle_identity_operation r id st).0
unfolding handle_identity_operation
handle_identity_operation-Consistent r id st c = elim (Bool-cases (r.down 0)) [
  | inl down ↦ rw down c
  | inr up ↦ rw up (
      to_registry-Consistent r (remove_queued_submission r id st)
        (remove_queued_submission-Consistent r id st c))
]
