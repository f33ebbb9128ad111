-- ===== src/Controller/Ownership/Placement.antt =====
-- The invariant across `SlotPlacement::apply`, src/controller/engine/admission/placement.rs.
use taskvisor.Prelude.{
  ℕ, ◌≡◌, refl, inl, inr, false, Option, none, some, List, [], ◌∷◌, ◌++◌, arith, length, at_limit,
  Bool-cases,
}
use taskvisor.Slot.{
  PendingSubmission, SlotPhase, idle, running, admitting, SlotState, request_replacement,
}
use taskvisor.Controller.State.{Name, State, Runtime, pending_len, finalize_rejected}
use taskvisor.Controller.Queue
use taskvisor.Controller.Queue.{
  try_push_queued, try_replace_head_or_push, replace_head_or_push, index_queued, try_replace,
}
use taskvisor.Controller.Handoff.{Started, started, refused, start_in_slot}
use taskvisor.Controller.Placement.{
  AdmissionPolicy, drop_if_running, replace, queue, Placement, accepted, rejected, handoff_failed,
  admitted, admit_idle, retire_owner, replaced, replace_owner, queued_behind, queue_submission,
  by_policy, by_phase, apply,
}
use taskvisor.Controller.Ownership.{IsFresh, mk, slot_at}
use taskvisor.Controller.Ownership.Moves.{push-Owned, swap-Owned}
use taskvisor.Controller.Ownership.Handoff.{StartedOwned, start_in_slot-Owned}
use taskvisor.Controller.Ownership.Close.{Held, framed-Held, phase-Held}

-- Whatever the outcome, the slot and the controller that it carries satisfy the invariant.
abbrev pub PlacementHeld : Name → Placement → Type 0
PlacementHeld name (accepted slot st displaced) = Held name slot st
PlacementHeld name (rejected p kind slot st) = Held name slot st
PlacementHeld name (handoff_failed p kind slot st) = Held name slot st

-- The replacement request keeps the owner and whom the slot awaits a decision on.
request_replacement-Held :
    (name : Name) (slot : SlotState) (t : ℕ) (st : State)
    → Held name slot st
    → Held name (request_replacement slot t).0 st
unfolding request_replacement
request_replacement-Held name slot t st h =
    phase-Held name slot (request_replacement slot t).0.phase st (λ a k. inr (ground arith)) h

module _ (r : Runtime) (name : Name) (p : PendingSubmission) where
  admit_idle-Held :
      (q : List PendingSubmission) (st : State)
      → IsFresh p.id st
      → Held name (mk idle q) st
      → PlacementHeld name (admit_idle r name (mk idle q) p st)
  unfolding admit_idle
  admit_idle-Held q st fresh h =
      by_start (start_in_slot r name (mk idle q) p st)
        (start_in_slot-Owned r name q p st fresh h.owned)
    where
      by_start :
          (s : Started)
          → StartedOwned name q p st s
          → PlacementHeld name (admitted name p.id (mk idle q) s)
      by_start (started slot st') k = framed-Held name (mk idle q) slot st _ h k.0 k.2
      by_start (refused error p' st') k = framed-Held name (mk idle q) (mk idle q) st _ h k.0 k.2

  retire_owner-Held :
      (ph : SlotPhase) (slot : SlotState) (st : State)
      → Held name slot st
      → Held name (retire_owner r name ph slot st).0 (retire_owner r name ph slot st).1
  retire_owner-Held idle slot st h = h
  retire_owner-Held (running owner t) slot st h =
      let slot' = (request_replacement slot r.now).0 in
      let k = request_replacement-Held name slot r.now st h in
      framed-Held name slot slot' st _ h k.owned (refl, refl)
  retire_owner-Held (admitting owner t) slot st h =
      let slot' = (request_replacement slot r.now).0 in
      let k = request_replacement-Held name slot r.now st h in
      framed-Held name slot slot' st _ h k.owned (refl, refl)
  retire_owner-Held _ slot st h = h

  abbrev ReplacedHeld : Option (SlotState × State × Option PendingSubmission) → Type 0
  ReplacedHeld none = Unit {0}
  ReplacedHeld (some (slot, st, displaced)) = Held name slot st

  try_replace-Held :
      (ph : SlotPhase) (q : List PendingSubmission) (st : State)
      → IsFresh p.id st
      → Held name (mk ph q) st
      → ReplacedHeld (try_replace_head_or_push (mk ph q) name p st)
  unfolding try_replace_head_or_push finalize_rejected pending_len
  try_replace-Held ph [] st fresh h =
      elim (Bool-cases (at_limit st.config.max_total_pending (pending_len st))) [
        | inl full ↦ rw full tt
        | inr room ↦ rw room (
            framed-Held name (mk ph []) (mk ph (p ∷ [])) st _ h
              (push-Owned st.config.max_total_pending (slot_at st.slots) name ph [] st.queued_slots
                st.capacity_pending st.admissions p fresh room h.owned)
              (refl, refl))
      ]
  try_replace-Held ph (head ∷ rest) st fresh h =
      framed-Held name (mk ph (head ∷ rest)) (mk ph (p ∷ rest)) st _ h
        (swap-Owned st.config.max_total_pending (slot_at st.slots) name ph rest st.queued_slots
          st.capacity_pending st.admissions p head fresh h.owned)
        (refl, refl)

  replaced-Held :
      (slot : SlotState) (st : State) (o : Option (SlotState × State × Option PendingSubmission))
      → Held name slot st
      → ReplacedHeld o
      → PlacementHeld name (replaced r name p slot st o)
  replaced-Held slot st none h k = h
  replaced-Held slot st (some (slot₁, st₁, displaced)) h k =
      let x = retire_owner r name slot₁.phase slot₁ st₁ in
      let y = retire_owner-Held slot₁.phase slot₁ st₁ k in
      framed-Held name x.0 x.0 x.1 _ y y.owned (refl, refl)

  queue_submission-Held :
      (slot : SlotState) (st : State)
      → IsFresh p.id st
      → Held name slot st
      → PlacementHeld name (queue_submission name slot p st)
  unfolding queue_submission try_push_queued pending_len
  queue_submission-Held slot st fresh h =
      elim (Bool-cases (Queue.queue_full st (length slot.queue))) [
        | inl full ↦ rw full h
        | inr space ↦
            rw space (elim (Bool-cases (at_limit st.config.max_total_pending (pending_len st))) [
              | inl full ↦ rw full h
              | inr room ↦ rw room (pushed room)
            ])
      ]
    where
      pushed :
          at_limit st.config.max_total_pending (pending_len st) ≡ false
          → PlacementHeld name (
              queued_behind name p slot st
                (some (record slot { queue = slot.queue ++ p ∷ [] }, index_queued p.id name st)))
      pushed room =
          framed-Held name slot (record slot { queue = slot.queue ++ p ∷ [] }) st _ h
            (push-Owned st.config.max_total_pending (slot_at st.slots) name slot.phase slot.queue
              st.queued_slots st.capacity_pending st.admissions p fresh room h.owned)
            (refl, refl)

  by_policy-Held :
      (policy : AdmissionPolicy) (slot : SlotState) (st : State)
      → IsFresh p.id st
      → Held name slot st
      → PlacementHeld name (by_policy r name policy slot p st)
  unfolding replace_owner
  by_policy-Held replace slot st fresh h =
      replaced-Held slot st _ h (try_replace-Held slot.phase slot.queue st fresh h)
  by_policy-Held queue slot st fresh h = queue_submission-Held slot st fresh h
  by_policy-Held drop_if_running slot st fresh h = h

  by_phase-Held :
      (ph : SlotPhase) (q : List PendingSubmission) (policy : AdmissionPolicy) (st : State)
      → IsFresh p.id st
      → Held name (mk ph q) st
      → PlacementHeld name (by_phase r name ph policy (mk ph q) p st)
  by_phase-Held idle q policy st fresh h = admit_idle-Held q st fresh h
  by_phase-Held (running owner t) q policy st fresh h = by_policy-Held policy _ st fresh h
  by_phase-Held _ q policy st fresh h = by_policy-Held policy _ st fresh h

  -- Placement of a fresh submission keeps the invariant of the locked slot, on every outcome.
  pub apply-Held :
      (policy : AdmissionPolicy) (slot : SlotState) (st : State)
      → IsFresh p.id st
      → Held name slot st
      → PlacementHeld name (apply r name policy slot p st)
  unfolding apply
  apply-Held policy slot st fresh h = by_phase-Held slot.phase slot.queue policy st fresh h
