-- ===== src/Controller/Ownership/Handoff.antt =====
-- The invariant across `start_in_slot` and `start_next_from_queue`,
-- src/controller/engine/admission/handoff.rs and advance.rs.
use taskvisor.Prelude.{
  ℕ, ◌≡◌, refl, ◌∙◌, inl, inr, true, false, Option, none, some, List, [], ◌∷◌, arith, lookup,
  insert, remove, remove-insert, at_limit, Bool-cases,
}
use taskvisor.Slot.{TaskId, PendingSubmission, SlotPhase, idle, SlotState, begin_admission, is_idle}
use taskvisor.Controller.Pump.{Pump, enqueue}
use taskvisor.Controller.State.{
  Name, State, Runtime, RuntimeError, command_queue_full, CapacityPending, finalize_rejected,
  pending_len,
}
use taskvisor.Controller.Queue.{
  try_index_capacity_pending, unindex_capacity_pending, unindex_queued,
}
use taskvisor.Controller.Handoff.{
  Started, started, refused, start_in_slot, Advance, advance_queue, start_next_from_queue,
  add_result, await_capacity, enqueued, advance_on, restore_watcher, rejection_kind, reject_queued,
}
use taskvisor.Controller.Ownership.{OwnedIn, IsFresh, mk, slot_at}
use taskvisor.Controller.Ownership.Moves.{pop-Owned, pop-Absent}
use taskvisor.Controller.Ownership.Waits.{admit-Owned, wait-Owned}

-- A handler that holds one slot leaves the limits and the other slots alone.
abbrev pub Frame : State → State → Type 0
Frame st st' = (st'.config ≡ st.config) × (st'.slots ≡ st.slots)

abbrev pub StartedOwned :
    Name → List PendingSubmission → PendingSubmission → State → Started → Type 0
StartedOwned name q p st (started slot st') =
    OwnedIn name slot st' × (is_idle slot ≡ false) × Frame st st'
StartedOwned name q p st (refused error p' st') =
    OwnedIn name (mk idle q) st' × (p' ≡ p) × Frame st st'

abbrev capacity_entry : Name → PendingSubmission → CapacityPending
capacity_entry name p = record { slot_name = name; pending = p }

fresh-none : (a : TaskId) (st : State) → IsFresh a st → lookup a st.capacity_pending ≡ none
fresh-none a st h = ground arith

module _ (r : Runtime) (name : Name) (q : List PendingSubmission) (p : PendingSubmission) where
  enqueued-Owned :
      (st : State)
      → IsFresh p.id st
      → at_limit st.config.max_total_pending (pending_len st) ≡ false
      → OwnedIn name (mk idle q) st
      → (o : Option Pump)
      → StartedOwned name q p st (
          enqueued r
            (mk idle q)
            p
            (record st {
              capacity_pending = insert p.id (capacity_entry name p) st.capacity_pending;
            })
            o)
  unfolding begin_admission unindex_capacity_pending pending_len is_idle
  enqueued-Owned st fresh room h (some pump) = (
    wait-Owned st.config.max_total_pending (slot_at st.slots) name q st.queued_slots
        st.capacity_pending st.admissions p.id r.now fresh p room h,
    refl,
    (refl, refl),
  )
  enqueued-Owned st fresh room h none =
      rw (remove-insert p.id (capacity_entry name p) st.capacity_pending (fresh-none p.id st fresh))
        (h, refl, (refl, refl))

  await_capacity-Owned :
      (st : State)
      → IsFresh p.id st
      → OwnedIn name (mk idle q) st
      → StartedOwned name q p st (
          await_capacity r
            (mk idle q)
            p
            st
            (try_index_capacity_pending p.id (capacity_entry name p) st))
  unfolding try_index_capacity_pending
  await_capacity-Owned st fresh h =
      elim (Bool-cases (at_limit st.config.max_total_pending (pending_len st))) [
        | inl full ↦ rw (full, try_index_capacity_pending) (h, refl, (refl, refl))
        | inr room ↦
            rw (room, try_index_capacity_pending)
              (enqueued-Owned st fresh room h (enqueue st.pump p.id))
      ]

  add_result-Owned :
      (tx : Option ℕ) (st : State)
      → IsFresh p.id st
      → OwnedIn name (mk idle q) st
      → (e : Option RuntimeError)
      → StartedOwned name q p st (add_result r name (mk idle q) p tx st e)
  unfolding begin_admission is_idle
  add_result-Owned tx st fresh h none = (
    admit-Owned st.config.max_total_pending (slot_at st.slots) name q st.queued_slots
        st.capacity_pending st.admissions p.id r.now fresh h,
    refl,
    (refl, refl),
  )
  add_result-Owned tx st fresh h (some command_queue_full) =
      await_capacity-Owned (restore_watcher p.id tx st) fresh h
  add_result-Owned tx st fresh h (some _) = (h, refl, (refl, refl))

  pub start_in_slot-Owned :
      (st : State)
      → IsFresh p.id st
      → OwnedIn name (mk idle q) st
      → StartedOwned name q p st (start_in_slot r name (mk idle q) p st)
  unfolding start_in_slot
  start_in_slot-Owned st fresh h =
      add_result-Owned (lookup p.id st.watchers) (record st { watchers = remove p.id st.watchers })
        fresh h (r.add p.id)

-- After an advance the slot is owned, or idle with nothing left to start.
abbrev pub AdvanceOwned : Name → State → Advance → Type 0
AdvanceOwned name st a =
    OwnedIn name a.slot a.state × Frame st a.state × (is_idle a.slot ≡ true → a.slot.queue ≡ [])

Frame-trans : (a b c : State) → Frame a b → Frame b c → Frame a c
Frame-trans a b c f g = (g.0 ∙ f.0, g.1 ∙ f.1)

advance_on-Owned :
    (name : Name) (p : PendingSubmission) (rest : List PendingSubmission) (st : State)
    (continue : State → Advance)
    → ((st' : State) → OwnedIn name (mk idle rest) st' → AdvanceOwned name st' (continue st'))
    → (s : Started) → StartedOwned name rest p st s
    → AdvanceOwned name st (advance_on name p continue s)
unfolding finalize_rejected
advance_on-Owned name p rest st continue ih (started slot st') h =
    (h.0, h.2, λ e. absurd (ground arith))
advance_on-Owned name p rest st continue ih (refused error p' st') h =
    let st₁ = reject_queued name p' (rejection_kind error) st' in
    let k = ih st₁ h.0 in (k.0, Frame-trans st st₁ (continue st₁).state h.2 k.1, k.2)

module _ (r : Runtime) (name : Name) where
  advance_queue-Owned :
      (queue q₀ : List PendingSubmission) (st : State)
      → OwnedIn name (mk idle queue) st
      → AdvanceOwned name st (advance_queue r name (mk idle q₀) queue st)
  unfolding advance_queue unindex_queued
  advance_queue-Owned [] q₀ st h = (h, (refl, refl), λ e. refl)
  advance_queue-Owned (p ∷ rest) q₀ st h =
      let popped =
        pop-Owned st.config.max_total_pending (slot_at st.slots) name idle rest st.queued_slots
          st.capacity_pending st.admissions p h in
      let fresh =
        pop-Absent st.config.max_total_pending (slot_at st.slots) name idle rest st.queued_slots
          st.capacity_pending st.admissions p h in
      let st₁ = unindex_queued p.id st in
      let a =
        advance_on-Owned name p rest st₁ (advance_queue r name (mk idle q₀) rest)
          (advance_queue-Owned rest q₀) (start_in_slot r name (mk idle rest) p st₁)
          (start_in_slot-Owned r name rest p st₁ fresh popped) in
      (a.0, a.1, a.2)

  start_next_from_phase-Owned :
      (ph : SlotPhase) (q : List PendingSubmission) (st : State)
      → OwnedIn name (mk ph q) st
      → AdvanceOwned name st (start_next_from_queue r name (mk ph q) st)
  unfolding start_next_from_queue is_idle
  start_next_from_phase-Owned idle q st h = advance_queue-Owned q q st h
  start_next_from_phase-Owned _ q st h = (h, (refl, refl), λ e. absurd (ground arith))

  -- `start_next_from_queue` keeps the indexes of the queued, waiting and admitted submissions in
  -- step, and leaves a slot idle only when nothing is queued behind it.
  pub start_next_from_queue-Owned :
      (slot : SlotState) (st : State)
      → OwnedIn name slot st
      → AdvanceOwned name st (start_next_from_queue r name slot st)
  start_next_from_queue-Owned slot st h = start_next_from_phase-Owned slot.phase slot.queue st h
