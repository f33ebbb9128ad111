-- ===== src/Controller/Ownership/Close.antt =====
-- From the map of slots to a locked slot and back: the ends of a slot guard.
use mathlib.Core.Path.{fun_ext}
use taskvisor.Prelude.{
  ◌≡◌, refl, sym, ◌⊎◌, inl, inr, Bool, true, false, ◌&&◌, none, some, List, [], arith, length, Map,
  IsMap, lookup, insert, remove, has, lookup-insert, lookup-remove, length-insert, length-remove,
  insert-IsMap, remove-IsMap, Within, Within-mono, Bool-cases,
}
use taskvisor.Slot.{TaskId, PendingSubmission, SlotPhase, idle, SlotState, is_idle, awaits_decision}
use taskvisor.Controller.State.{
  Name, State, Runtime, store, gc_if_idle, dispose, dispose_all, is_empty_queue,
}
use taskvisor.Controller.Handoff.{start_next_from_queue}
use taskvisor.Controller.Results.{advance_and_store}
use taskvisor.Controller.Ownership.{OwnedIn, Consistent, mk, put, slot_at}
use taskvisor.Controller.Ownership.Waits.{phase-Owned}
use taskvisor.Controller.Ownership.Handoff.{Frame, start_next_from_queue-Owned}

module _ (name : Name) (slot : SlotState) (slots : Map SlotState) where
  slot_at-insert : slot_at (insert name slot slots) ≡ put (slot_at slots) name slot
  slot_at-insert = fun_ext λ n. ground (arith, lookup-insert name n slot slots)

  slot_at-remove :
      IsMap slots → slot ≡ mk idle [] → slot_at (remove name slots) ≡ put (slot_at slots) name slot
  slot_at-remove m e = fun_ext λ n. ground (arith, lookup-remove name n slots m)

  slot_at-put : lookup name slots ≡ some slot → slot_at slots ≡ put (slot_at slots) name slot
  slot_at-put e = fun_ext λ n. at n
    where
      at : (n : Name) → slot_at slots n ≡ put (slot_at slots) name slot n
      at n = ground arith

-- A handler holds `name`: what the map of slots must satisfy when it lets go.
pub record Held (name : Name) (slot : SlotState) (st : State) : Type 0 where
  pub owned : OwnedIn name slot st
  pub slots_map : IsMap st.slots
  pub slots_bounded : Within st.config.max_controller_slots (length st.slots)
  pub present : has name st.slots ≡ true

pub lock-Held :
    (name : Name) (slot : SlotState) (st : State)
    → lookup name st.slots ≡ some slot
    → Consistent st
    → Held name slot st
lock-Held name slot st e c = record {
  owned = rw (sym (slot_at-put name slot st.slots e)) c.owned;
  slots_map = c.slots_map;
  slots_bounded = c.slots_bounded;
  present = ground arith;
}

pub store-Consistent :
    (name : Name) (slot : SlotState) (st : State)
    → Held name slot st
    → Consistent (store name slot st)
unfolding store
store-Consistent name slot st h = record {
  owned = rw (slot_at-insert name slot st.slots) h.owned;
  slots_map = insert-IsMap name slot st.slots h.slots_map;
  slots_bounded =
      Within-mono st.config.max_controller_slots (length st.slots) _ h.slots_bounded
        (ground (arith, h.present, length-insert name slot st.slots));
}

collect-Consistent :
    (name : Name) (slot : SlotState) (st : State)
    → slot ≡ mk idle []
    → Held name slot st
    → Consistent (record st { slots = remove name st.slots })
collect-Consistent name slot st e h = record {
  owned = rw (slot_at-remove name slot st.slots h.slots_map e) h.owned;
  slots_map = remove-IsMap name st.slots h.slots_map;
  slots_bounded =
      Within-mono st.config.max_controller_slots (length st.slots) _ h.slots_bounded
        (ground (arith, h.present, length-remove name st.slots));
}

idle-nil :
    (slot : SlotState) → (is_idle slot && is_empty_queue slot.queue) ≡ true → slot ≡ mk idle []
unfolding is_idle
idle-nil slot e = ground arith

pub gc_if_idle-Consistent :
    (name : Name) (slot : SlotState) (st : State)
    → Held name slot st
    → Consistent (gc_if_idle name slot st)
unfolding gc_if_idle
gc_if_idle-Consistent name slot st h =
    elim (Bool-cases (is_idle slot && is_empty_queue slot.queue)) [
      | inl e ↦ rw (gc_if_idle, e) (collect-Consistent name slot st (idle-nil slot e) h)
      | inr e ↦ rw (gc_if_idle, e) (unfold store in store-Consistent name slot st h)
    ]

-- Values that are disposed of are outside the controller.
dispose_all-Consistent :
    (ps : List PendingSubmission) (st : State) → Consistent st → Consistent (dispose_all ps st)
unfolding dispose_all
dispose_all-Consistent ps st c = record {
  owned = c.owned;
  slots_map = c.slots_map;
  slots_bounded = c.slots_bounded;
}

pub dispose-Consistent :
    (p : PendingSubmission) (st : State) → Consistent st → Consistent (dispose p st)
unfolding dispose
dispose-Consistent p st c = record {
  owned = c.owned;
  slots_map = c.slots_map;
  slots_bounded = c.slots_bounded;
}

pub framed-Held :
    (name : Name) (slot slot' : SlotState) (st st' : State)
    → Held name slot st
    → OwnedIn name slot' st'
    → Frame st st'
    → Held name slot' st'
framed-Held name slot slot' st st' h o f = record {
  owned = o;
  slots_map = rw f.1 h.slots_map;
  slots_bounded = rw (f.0, f.1) h.slots_bounded;
  present = rw f.1 h.present;
}

pub advance_and_store-Consistent :
    (r : Runtime) (name : Name) (slot : SlotState) (go : Bool) (first : List PendingSubmission)
    (st : State)
    → Held name slot st
    → Consistent (advance_and_store r name slot go first st)
unfolding advance_and_store
advance_and_store-Consistent r name slot true first st h =
    let a = start_next_from_queue r name slot st in
    let k = start_next_from_queue-Owned r name slot st h.owned in
    dispose_all-Consistent a.drops _ (
      dispose_all-Consistent first _ (
        gc_if_idle-Consistent name a.slot a.state
          (framed-Held name slot a.slot st a.state h k.0 k.1)))
advance_and_store-Consistent r name slot false first st h =
    dispose_all-Consistent [] _
      (dispose_all-Consistent first _ (gc_if_idle-Consistent name slot st h))

-- The phase of the locked slot changes: the waiter for which it awaited a decision has gone, or
-- the slot still awaits it.
pub phase-Held :
    (name : Name) (slot : SlotState) (ph : SlotPhase) (st : State)
    → ((a : TaskId)
        → awaits_decision slot.phase a ≡ true
        → (lookup a st.capacity_pending ≡ none) ⊎ (awaits_decision ph a ≡ true))
    → Held name slot st
    → Held name (record slot { phase = ph }) st
phase-Held name slot ph st keep h =
    framed-Held name slot (record slot { phase = ph }) st st h
      (phase-Owned st.config.max_total_pending (slot_at st.slots) name slot.phase slot.queue
        st.queued_slots st.capacity_pending st.admissions ph keep h.owned)
      (refl, refl)
