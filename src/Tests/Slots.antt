-- ===== src/Tests/Slots.antt =====
-- A slot whose owner is replaced before and after its admission.
use taskvisor.Prelude.{◌+◌, ◌≤◌, ◌≡◌, ◌≢◌, refl, ◌⊎◌, some, List, [], ◌∷◌, arith}
use taskvisor.Slot.{
  PendingSubmission, SlotState, admitting, running, terminating, owner_id, phase_owner,
}
use taskvisor.Slot.Phases
use taskvisor.Slot.Phases.{
  Signal, starts, replaced, accepted, rejected, completed, ◌⟶◌, apply-⟶, ⟶-apply, apply_stale,
  apply_all, apply_all_owned, tenure_order, removal_count, removable, start_count, removal_count-le,
}

abbrev waiting_task : PendingSubmission
waiting_task = record { id = 2; task_name = 0; owned = 102 }

abbrev running_slot : SlotState
running_slot = record { phase = running 1 5; queue = waiting_task ∷ [] }

abbrev fresh_slot : SlotState
fresh_slot = record { phase = admitting 1 4; queue = [] }

abbrev signals : List Signal
signals = replaced 6 ∷ replaced 7 ∷ completed 3 ∷ accepted 1 8 ∷ replaced 9 ∷ []

apply-⟶_example :
    (((Phases.apply running_slot (replaced 6)).phase ≡ running_slot.phase)
      ⊎ (running_slot.phase ⟶ (Phases.apply running_slot (replaced 6)).phase))
    × ((Phases.apply running_slot (replaced 6)).queue ≡ running_slot.queue)
apply-⟶_example = apply-⟶ running_slot (replaced 6)

⟶-apply_example :
    (e : Signal) × (Phases.apply running_slot e ≡ record running_slot { phase = terminating 1 6 })
⟶-apply_example = ⟶-apply running_slot {p = terminating 1 6} (Phases.replace 1 5 6)

other_owner : owner_id running_slot ≢ some 3
unfolding owner_id phase_owner
other_owner e = ground arith

apply_stale_example : Phases.apply running_slot (completed 3) ≡ running_slot
apply_stale_example = apply_stale running_slot (completed 3) 3 refl other_owner

apply_all_owned_example : owner_id (apply_all fresh_slot signals) ≡ some 1
unfolding owner_id phase_owner
apply_all_owned_example =
    apply_all_owned fresh_slot signals 1 refl (refl, (refl, (refl, (refl, (refl, tt)))))

removal_count-le_example :
    removal_count 1 fresh_slot signals ≤ removable 1 fresh_slot.phase + start_count 1 signals
removal_count-le_example = removal_count-le 1 fresh_slot signals
