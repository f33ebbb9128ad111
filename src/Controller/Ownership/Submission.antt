-- ===== src/Controller/Ownership/Submission.antt =====
-- The invariant across `handle_submission`, src/controller/engine/admission/submission.rs.
use mathlib.Core.Path.{fun_ext}
use taskvisor.Prelude.{
  ◌≡◌, refl, inl, inr, false, Option, none, some, [], arith, length, lookup, insert, at_limit,
  lookup-insert, length-insert, insert-IsMap, Within-suc, Bool-cases,
}
use taskvisor.Slot.{PendingSubmission, idle, SlotState, new}
use taskvisor.Controller.State.{
  Name, State, Runtime, RejectionKind, admission_failed, controller_shutting_down, resource_limit,
  finalize_rejected,
}
use taskvisor.Controller.Queue.{try_get_or_create_slot, slot_or_create}
use taskvisor.Controller.Placement.{
  AdmissionPolicy, Placement, accepted, rejected, handoff_failed, apply,
}
use taskvisor.Controller.Submission.{
  Submission, Watcher, park, commit, reject_with_event, drop_watcher, reject_and_drop, finish,
  place_in, place, preflight, slot_name_of, explicit_slot_rejection, watch, handle_submission,
}
use taskvisor.Controller.Ownership.{Consistent, IsFresh, mk, put, slot_at}
use taskvisor.Controller.Ownership.Close.{
  Held, lock-Held, store-Consistent, gc_if_idle-Consistent, dispose-Consistent, framed-Held,
}
use taskvisor.Controller.Ownership.Results.{same-Consistent, if-Consistent}
use taskvisor.Controller.Ownership.Placement.{PlacementHeld, apply-Held}

-- Two controllers agree on all that ownership is about.
abbrev pub Same : State → State → Type 0
Same st st' =
    (st'.config ≡ st.config)
    × (st'.slots ≡ st.slots)
    × (st'.queued_slots ≡ st.queued_slots)
    × (st'.capacity_pending ≡ st.capacity_pending)
    × (st'.admissions ≡ st.admissions)

Same-Consistent : (st st' : State) → Same st st' → Consistent st → Consistent st'
Same-Consistent st st' s c = same-Consistent st st' s.0 s.1 s.2 s.3 s.4 c

Same-Held :
    (name : Name) (slot : SlotState) (st st' : State)
    → Same st st'
    → Held name slot st
    → Held name slot st'
Same-Held name slot st st' s h =
    framed-Held name slot slot st st' h (rw (s.0, s.1, s.2, s.3, s.4) h.owned) (s.0, s.1)

-- The guard of a submission only resolves its channel and disposes of its task.
reject_with_event-Same :
    (w : Watcher) (kind : RejectionKind) (st : State) → Same st (reject_with_event w kind st).1
unfolding reject_with_event finalize_rejected
reject_with_event-Same w kind st = ground arith

drop_watcher-Same : (w : Watcher) (st : State) → Same st (drop_watcher w st)
unfolding drop_watcher
drop_watcher-Same w st = reject_with_event-Same w admission_failed st

park-Same : (w : Watcher) (st : State) → Same st (park w st).1
unfolding park
park-Same w st = ground arith

drop-Consistent : (w : Watcher) (st : State) → Consistent st → Consistent (drop_watcher w st)
drop-Consistent w st c = Same-Consistent st (drop_watcher w st) (drop_watcher-Same w st) c

reject-Consistent :
    (w : Watcher) (kind : RejectionKind) (st : State)
    → Consistent st
    → Consistent (reject_with_event w kind st).1
reject-Consistent w kind st c =
    Same-Consistent st (reject_with_event w kind st).1 (reject_with_event-Same w kind st) c

reject-Held :
    (name : Name) (slot : SlotState) (w : Watcher) (kind : RejectionKind) (st : State)
    → Held name slot st
    → Held name slot (reject_with_event w kind st).1
reject-Held name slot w kind st h =
    Same-Held name slot st (reject_with_event w kind st).1 (reject_with_event-Same w kind st) h

reject_and_drop-Consistent :
    (w : Watcher) (kind : RejectionKind) (st : State)
    → Consistent st
    → Consistent (reject_and_drop w kind st)
reject_and_drop-Consistent w kind st c =
    drop-Consistent (reject_with_event w kind st).0 (reject_with_event w kind st).1
      (reject-Consistent w kind st c)

finish-Consistent :
    (name : Name) (w : Watcher) (x : Placement)
    → PlacementHeld name x
    → Consistent (finish name w x)
finish-Consistent name w (accepted slot st none) h =
    drop-Consistent (commit w) _ (store-Consistent name slot st h)
finish-Consistent name w (accepted slot st (some displaced)) h =
    drop-Consistent (commit w) _ (dispose-Consistent displaced _ (store-Consistent name slot st h))
finish-Consistent name w (rejected p kind slot st) h =
    let (w', st') = reject_with_event w kind st in
    drop-Consistent w' _
      (dispose-Consistent p _ (store-Consistent name slot st' (reject-Held name slot w kind st h)))
finish-Consistent name w (handoff_failed p kind slot st) h =
    let (w', st') = reject_with_event w kind st in
    drop-Consistent w' _ (
      dispose-Consistent p _
        (gc_if_idle-Consistent name slot st' (reject-Held name slot w kind st h)))

-- A slot is created under the limit on slots.
create-Held :
    (name : Name) (st : State)
    → lookup name st.slots ≡ none
    → at_limit st.config.max_controller_slots (length st.slots) ≡ false
    → Consistent st
    → Held name (mk idle []) (record st { slots = insert name (mk idle []) st.slots })
create-Held name st e room c = record {
  owned = rw (← same) c.owned;
  slots_map = insert-IsMap name (mk idle []) st.slots c.slots_map;
  slots_bounded =
      Within-suc st.config.max_controller_slots (length st.slots) _ room
        (ground (arith, length-insert name (mk idle []) st.slots));
  present = ground (arith, lookup-insert name name (mk idle []) st.slots);
}
  where
    same : slot_at st.slots ≡ put (slot_at (insert name (mk idle []) st.slots)) name (mk idle [])
    same = fun_ext λ n. ground (arith, lookup-insert name n (mk idle []) st.slots)

-- The locked slot and the controller that `try_get_or_create_slot` gives.
abbrev CreatedHeld : Name → State → Option (SlotState × State) → Type 0
CreatedHeld name st₀ none = Unit {0}
CreatedHeld name st₀ (some (slot, st)) =
    Held name slot st
    × (st.queued_slots ≡ st₀.queued_slots)
    × (st.capacity_pending ≡ st₀.capacity_pending)
    × (st.admissions ≡ st₀.admissions)

slot_or_create-Held :
    (name : Name) (st : State) (o : Option SlotState)
    → lookup name st.slots ≡ o
    → Consistent st
    → CreatedHeld name st (slot_or_create name st o)
unfolding new
slot_or_create-Held name st (some slot) e c = (lock-Held name slot st e c, refl, refl, refl)
slot_or_create-Held name st none e c =
    elim (Bool-cases (at_limit st.config.max_controller_slots (length st.slots))) [
      | inl full ↦ rw full tt
      | inr room ↦ rw room (create-Held name st e room c, refl, refl, refl)
    ]

module _ (r : Runtime) (name : Name) (policy : AdmissionPolicy) (p : PendingSubmission)
    (w : Watcher) where
  place_in-Consistent :
      (st : State) (o : Option (SlotState × State))
      → IsFresh p.id st
      → CreatedHeld name st o
      → Consistent st
      → Consistent (place_in r name policy p w st o)
  place_in-Consistent st none fresh h c =
      let (w', st') = reject_with_event w resource_limit st in
      drop-Consistent w' _ (dispose-Consistent p _ (reject-Consistent w resource_limit st c))
  place_in-Consistent st (some (slot, st₁)) fresh h c =
      let (w', st') = reject_with_event w controller_shutting_down st₁ in
      if-Consistent (r.down 2) _ _
        (drop-Consistent w' _ (
          dispose-Consistent p _ (
            gc_if_idle-Consistent name slot st'
              (reject-Held name slot w controller_shutting_down st₁ h.0))))
        (finish-Consistent name w (apply r name policy slot p st₁)
          (apply-Held r name p policy slot st₁ (rw (h.1, h.2, h.3) fresh) h.0))

place-Consistent :
    (r : Runtime) (name : Name) (sub : Submission) (w : Watcher) (st : State)
    → IsFresh sub.id st
    → Consistent st
    → Consistent (place r name sub w st)
unfolding place try_get_or_create_slot
place-Consistent r name sub w st fresh c =
    let w₀ : Watcher = record w { owned = none } in
    let (w', st') = park w₀ st in
    let s = park-Same w₀ st in
    let c' = Same-Consistent st st' s c in
    place_in-Consistent r name sub.admission
      (record { id = sub.id; task_name = sub.task_name; owned = sub.owned }) w' st' _
      (rw (s.2, s.3, s.4) fresh) (slot_or_create-Held name st' (lookup name st'.slots) refl c') c'

preflight-Consistent :
    (r : Runtime) (name : Name) (sub : Submission) (w : Watcher) (st : State)
    (o : Option RejectionKind)
    → IsFresh sub.id st
    → Consistent st
    → Consistent (preflight r name sub w st o)
preflight-Consistent r name sub w st none fresh c = place-Consistent r name sub w st fresh c
preflight-Consistent r name sub w st (some kind) fresh c = reject_and_drop-Consistent w kind st c

-- A submission with a fresh identity keeps the controller consistent, whatever becomes of it.
pub handle_submission-Consistent :
    (r : Runtime) (sub : Submission) (st : State)
    → IsFresh sub.id st
    → Consistent st
    → Consistent (handle_submission r sub st)
unfolding handle_submission
handle_submission-Consistent r sub st fresh c =
    if-Consistent (r.upgrade 0) _ _
      (if-Consistent (r.down 0) _ _
        (reject_and_drop-Consistent (watch sub) controller_shutting_down st c)
        (preflight-Consistent r (slot_name_of sub) sub (watch sub) st
          (explicit_slot_rejection r st sub.slot_override sub.admission) fresh c))
      (reject_and_drop-Consistent (watch sub) admission_failed st c)
