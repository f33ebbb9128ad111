-- ===== src/Controller/Ownership/Advance.antt =====
-- src/controller/engine/admission/advance.rs: where each queued submission of a slot goes when the
-- slot advances.
use taskvisor.Prelude.{◌≡◌, ◌≢◌, ◌⊎◌, Option, none, some, List, [], ◌∷◌, ◌++◌}
use taskvisor.Slot.{PendingSubmission, SlotPhase, idle, admitting, SlotState}
use taskvisor.Controller.Pump.{Pump}
use taskvisor.Controller.State.{
  Name, State, Runtime, RuntimeError, command_queue_full, Event, controller_submitted,
  controller_rejected, RejectionKind,
}
use taskvisor.Controller.Handoff.{Started, started, refused, Advance}

-- The registry takes a submission, or it waits for room in the command queue.
abbrev pub IsTaken : Option RuntimeError → Type 0
IsTaken answer = (answer ≡ none) ⊎ (answer ≡ some command_queue_full)

abbrev pub AllRefused : Runtime → List PendingSubmission → Type 0
AllRefused r [] = Unit {0}
AllRefused r (p ∷ ps) = (r.add p.id ≢ none) × AllRefused r ps

-- The events of an advance: one rejection for each submission that is dropped, in order, then
-- `last`.
abbrev pub Announces : Name → List PendingSubmission → List Event → List Event → Type 0
Announces name [] last events = events ≡ last
Announces name (p ∷ ps) last [] = ⊥
Announces name (p ∷ ps) last (event ∷ events) =
    ((kind : RejectionKind) × (event ≡ controller_rejected (some name) p.id kind))
    × Announces name ps last events

-- Either all that was queued is dropped and the slot is idle, or the first submission that is not
-- dropped owns the slot and those behind it still wait, in their order.
abbrev pub Places : Runtime → Name → List PendingSubmission → List Event → Advance → Type 0
Places r name queue events a =
    ((a.slot ≡ record { phase = idle; queue = [] })
      × (queue ≡ a.drops)
      × Announces name a.drops [] events)
    ⊎ ((p : PendingSubmission) × (queue ≡ a.drops ++ p ∷ a.slot.queue)
        × (a.slot.phase ≡ admitting p.id r.now)
        × IsTaken (r.add p.id)
        × Announces name a.drops (controller_submitted name p.id ∷ []) events)

pub record Advanced (r : Runtime) (name : Name) (queue : List PendingSubmission) (st : State)
    (a : Advance) : Type 0 where
  pub events : List Event
  pub published : a.state.events ≡ st.events ++ events
  pub refusals : AllRefused r a.drops
  pub places : Places r name queue events a

-- What a handoff does to the submission, the slot and the bus.
abbrev StartedLine :
    Runtime → Name → List PendingSubmission → PendingSubmission → State → Started → Type 0
StartedLine r name q p st (started slot st') =
    (slot ≡ record { phase = admitting p.id r.now; queue = q })
    × IsTaken (r.add p.id)
    × (st'.events ≡ st.events)
StartedLine r name q p st (refused error p' st') =
    (p' ≡ p) × (r.add p.id ≢ none) × (st'.events ≡ st.events)

-- An advance of a slot: a slot with an owner does not change; an idle one hands what it has queued
-- over, one by one from the front, until the registry takes one.
abbrev pub IsAdvance : Runtime → Name → SlotPhase → SlotState → State → Advance → Type 0
IsAdvance r name idle slot st a = Advanced r name slot.queue st a
IsAdvance r name _ slot st a = a ≡ record { slot = slot; state = st; drops = [] }
