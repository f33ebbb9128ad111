-- ===== src/Controller/Ownership/Results.antt =====
-- The invariant across the results of src/controller/engine/admission/results.rs and the removal
-- results of operations.rs.
use taskvisor.Prelude.{
  ◌≡◌, refl, inl, inr, Bool, true, false, ◌&&◌, not, Option, none, some, [], arith, if◌then◌else◌,
  lookup, Bool-cases,
}
use taskvisor.Slot.{
  TaskId, Instant, SlotPhase, idle, SlotState, AdmissionTransition, awaits_decision, owner_id,
  confirm_admission, reject_admission, complete_owner,
}
use taskvisor.Controller.State.{Name, State, Runtime, store}
use taskvisor.Controller.Results.{
  handle_admission_result, handle_completion_result, handle_removal_result, confirmed,
  decide_in_slot, refused_admission, completed_owner, complete_in_slot, report_removal, is_owner,
  track_completion,
}
use taskvisor.Controller.Ownership.{Consistent, IsFresh}
use taskvisor.Controller.Ownership.Close.{
  Held, lock-Held, store-Consistent, advance_and_store-Consistent, framed-Held, phase-Held,
}

-- A slot that has its accepted task back.
pub complete_owner-Held :
    (name : Name) (slot : SlotState) (id : TaskId) (st : State)
    → (complete_owner slot id).1 ≡ true
    → Held name slot st
    → Held name (complete_owner slot id).0 st
unfolding complete_owner
complete_owner-Held name slot id st e h =
    rw e (phase-Held name slot idle st (λ a k. absurd (ground arith)) h)

completed_owner-Consistent :
    (r : Runtime) (name : Name) (st : State) (x : SlotState × Bool)
    → (x.1 ≡ true → Held name x.0 st)
    → Consistent st
    → Consistent (completed_owner r name st x)
completed_owner-Consistent r name st (slot, true) h c =
    advance_and_store-Consistent r name slot (not (r.down 0)) [] st (h refl)
completed_owner-Consistent r name st (slot, false) h c = c

complete_in_slot-Consistent :
    (r : Runtime) (id : TaskId) (name : Name) (st : State) (o : Option SlotState)
    → lookup name st.slots ≡ o
    → Consistent st
    → Consistent (complete_in_slot r id name st o)
complete_in_slot-Consistent r id name st none e c = c
complete_in_slot-Consistent r id name st (some slot) e c =
    completed_owner-Consistent r name st (complete_owner slot id)
      (λ k. complete_owner-Held name slot id st k (lock-Held name slot st e c)) c

-- A physical completion keeps the controller consistent.
pub handle_completion_result-Consistent :
    (r : Runtime) (id : TaskId) (name : Name) (st : State)
    → Consistent st
    → Consistent (handle_completion_result r id name st)
unfolding handle_completion_result
handle_completion_result-Consistent r id name st c = elim (Bool-cases (r.upgrade 0)) [
  | inl alive ↦
      rw (handle_completion_result, alive)
        (complete_in_slot-Consistent r id name st (lookup name st.slots) refl c)
  | inr dead ↦ rw (handle_completion_result, dead) c
]

-- A slot that awaits the decision on `id`, of which the controller holds nothing any more, may
-- take any phase.
decided-Held :
    (name : Name) (slot : SlotState) (id : TaskId) (ph : SlotPhase) (st : State)
    → awaits_decision slot.phase id ≡ true
    → IsFresh id st
    → Held name slot st
    → Held name (record slot { phase = ph }) st
decided-Held name slot id ph st e fresh h = phase-Held name slot ph st (λ a k. inl (gone a k)) h
  where
    gone : (a : TaskId) → awaits_decision slot.phase a ≡ true → lookup a st.capacity_pending ≡ none
    gone a k = ground arith

refused_admission-Consistent :
    (r : Runtime) (id : TaskId) (name : Name) (st : State) (x : SlotState × Bool)
    → (x.1 ≡ true → Held name x.0 st)
    → Consistent st
    → Consistent (refused_admission r id name st x)
refused_admission-Consistent r id name st (slot, true) h c =
    advance_and_store-Consistent r name slot (not (r.down 0) && r.upgrade 0) [] st (h refl)
refused_admission-Consistent r id name st (slot, false) h c = c

pub reject_admission-Held :
    (name : Name) (slot : SlotState) (id : TaskId) (st : State)
    → IsFresh id st
    → Held name slot st
    → Held name (reject_admission slot id).0 st
unfolding reject_admission
reject_admission-Held name slot id st fresh h = elim (Bool-cases (awaits_decision slot.phase id)) [
  | inl e ↦ rw e (decided-Held name slot id idle st e fresh h)
  | inr e ↦ rw e h
]

-- The transitions that take up a reply; a stale one leaves everything as it was.
abbrev IsStale : AdmissionTransition → Type 0
IsStale AdmissionTransition.stale = Unit {0}
IsStale _ = ⊥

confirm_admission-Held :
    (name : Name) (slot : SlotState) (id : TaskId) (t : Instant) (st : State)
    → IsFresh id st
    → Held name slot st
    → Held name (confirm_admission slot id t).0 st
unfolding confirm_admission
confirm_admission-Held name slot id t st fresh h =
    elim (Bool-cases (awaits_decision slot.phase id)) [
      | inl e ↦ decided-Held name slot id (confirm_admission slot id t).0.phase st e fresh h
      | inr e ↦ rw (same e) h
    ]
  where
    same : awaits_decision slot.phase id ≡ false → (confirm_admission slot id t).0 ≡ slot
    same e = ground arith

pub same-Consistent :
    (st st' : State)
    → st'.config ≡ st.config
    → st'.slots ≡ st.slots
    → st'.queued_slots ≡ st.queued_slots
    → st'.capacity_pending ≡ st.capacity_pending
    → st'.admissions ≡ st.admissions
    → Consistent st
    → Consistent st'
same-Consistent st st' a b c d e h = record {
  owned = rw (a, b, c, d, e) h.owned;
  slots_map = rw b h.slots_map;
  slots_bounded = rw (a, b) h.slots_bounded;
}

pub if-Consistent :
    (b : Bool) (x y : State) → Consistent x → Consistent y → Consistent (if b then x else y)
if-Consistent true x y h k = h
if-Consistent false x y h k = k

confirmed-Consistent :
    (r : Runtime) (id : TaskId) (name : Name) (st : State) (x : SlotState × AdmissionTransition)
    → Held name x.0 st
    → Consistent st
    → Consistent (confirmed r id name st x)
confirmed-Consistent r id name st (slot, AdmissionTransition.now_running) h c =
    store-Consistent name slot _ (framed-Held name slot slot st _ h h.owned (refl, refl))
confirmed-Consistent r id name st (slot, AdmissionTransition.remove_now owner) h c =
    let st₁ = store name slot (track_completion id name st) in
    let k =
      store-Consistent name slot (track_completion id name st)
        (framed-Held name slot slot st (track_completion id name st) h h.owned (refl, refl)) in
    if-Consistent (r.upgrade 0) _ st₁ (same-Consistent st₁ _ refl refl refl refl refl k) k
confirmed-Consistent r id name st (slot, AdmissionTransition.stale) h c = c

decide_in_slot-Consistent :
    (r : Runtime) (id : TaskId) (name : Name) (accepted : Bool) (st : State) (o : Option SlotState)
    → lookup name st.slots ≡ o
    → IsFresh id st
    → Consistent st
    → Consistent (decide_in_slot r id name accepted st o)
decide_in_slot-Consistent r id name accepted st none e fresh c = c
decide_in_slot-Consistent r id name true st (some slot) e fresh c =
    confirmed-Consistent r id name st (confirm_admission slot id r.now)
      (confirm_admission-Held name slot id r.now st fresh (lock-Held name slot st e c)) c
decide_in_slot-Consistent r id name false st (some slot) e fresh c =
    refused_admission-Consistent r id name st (reject_admission slot id)
      (λ _. reject_admission-Held name slot id st fresh (lock-Held name slot st e c)) c

-- The registry's decision on a task keeps the controller consistent, once its future is untracked.
pub handle_admission_result-Consistent :
    (r : Runtime) (id : TaskId) (name : Name) (accepted : Bool) (st : State)
    → IsFresh id st
    → Consistent st
    → Consistent (handle_admission_result r id name accepted st)
unfolding handle_admission_result
handle_admission_result-Consistent r id name accepted st fresh c =
    decide_in_slot-Consistent r id name accepted st (lookup name st.slots) refl fresh c

-- The result of a removal only reports.
pub handle_removal_result-Consistent :
    (id : TaskId) (name : Name) (failed : Bool) (st : State)
    → Consistent st
    → Consistent (handle_removal_result id name failed st)
unfolding handle_removal_result
handle_removal_result-Consistent id name failed st c = report (lookup name st.slots)
  where
    report : (o : Option SlotState) → Consistent (report_removal id failed st o)
    report none = c
    report (some slot) =
        if-Consistent (is_owner id (owner_id slot) && failed) _ st
          (same-Consistent st _ refl refl refl refl refl c) c
