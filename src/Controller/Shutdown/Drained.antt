-- ===== src/Controller/Shutdown/Drained.antt =====
-- What the end of the loop, src/controller/engine/lifecycle/shutdown.rs, leaves behind.
use mathlib.Core.List.{append_assoc, append-nil}
use taskvisor.Prelude.{
  ap, sym, ℕ, ◌+◌, ◌≡◌, refl, ◌∙◌, Option, none, some, List, [], ◌∷◌, ◌++◌, map, arith, length,
  length-append, Map, lookup, remove, length-remove,
}
use taskvisor.Slot.{TaskId, PendingSubmission, SlotState}
use taskvisor.Controller.Submission.{slot_name_of}
use taskvisor.Controller.State.{
  RejectionKind, controller_rejected, send_rejected, publish, Name, State, CapacityPending,
  controller_shutting_down, finalize_rejected, sent, dispose_all,
}
use taskvisor.Controller.Shutdown.{
  Command, submit, manage_identity, drain_commands, drain_pending_on_shutdown, reject_shutdown,
  reject_waiters, reject_queue, reject_slots, queued_of, reject_watchers,
  finalize_slot_state_on_shutdown,
}

-- The watched channels that were or will be answered.
abbrev answers : State → ℕ
answers st = length st.outcomes + length st.watchers

-- What a rejection leaves alone, and the watchers that it answers.
abbrev Told : State → State → Type 0
Told st st' = (answers st' ≡ answers st) × (st'.disposed ≡ st.disposed)

reject_shutdown-Told :
    (name : Option Name) (id : TaskId) (st : State) → Told st (reject_shutdown name id st)
unfolding finalize_rejected
reject_shutdown-Told name id st = (
  ground (
    arith,
    length-append st.outcomes (sent (lookup id st.watchers) controller_shutting_down),
    length-remove id st.watchers,
  ),
  refl,
)

join : {k m n : ℕ} {x y z : List ℕ} → (m ≡ k) × (y ≡ x) → (n ≡ m) × (z ≡ y) → (n ≡ k) × (z ≡ x)
join p q = (q.0 ∙ p.0, q.1 ∙ p.1)

reject_waiters-Told : (m : Map CapacityPending) (st : State) → Told st (reject_waiters m st)
unfolding reject_waiters
reject_waiters-Told [] st = (refl, refl)
reject_waiters-Told ((id, w) ∷ m) st =
    join (reject_shutdown-Told (some w.slot_name) id st)
      (reject_waiters-Told m (reject_shutdown (some w.slot_name) id st))

abbrev popped : PendingSubmission → State → State
popped p st = record st { queued_slots = remove p.id st.queued_slots }

reject_queue-Told :
    (name : Name) (ps : List PendingSubmission) (st : State) → Told st (reject_queue name ps st)
unfolding reject_queue
reject_queue-Told name [] st = (refl, refl)
reject_queue-Told name (p ∷ ps) st =
    join (reject_shutdown-Told (some name) p.id (popped p st))
      (reject_queue-Told name ps (reject_shutdown (some name) p.id (popped p st)))

reject_slots-Told : (m : Map SlotState) (st : State) → Told st (reject_slots m st)
unfolding reject_slots
reject_slots-Told [] st = (refl, refl)
reject_slots-Told ((name, slot) ∷ m) st =
    join (reject_queue-Told name slot.queue st)
      (reject_slots-Told m (reject_queue name slot.queue st))

reject_watchers-Told : (ids : List TaskId) (st : State) → Told st (reject_watchers ids st)
unfolding reject_watchers
reject_watchers-Told [] st = (refl, refl)
reject_watchers-Told (id ∷ ids) st =
    join (reject_shutdown-Told none id st) (reject_watchers-Told ids (reject_shutdown none id st))

head_removed :
    (k v : ℕ) (m : Map ℕ) (name : Option Name) (st : State)
    → st.watchers ≡ (k, v) ∷ m
    → (reject_shutdown name k st).watchers ≡ m
unfolding finalize_rejected remove
head_removed k v m name st e = rw e (ground arith)

-- Going through all the keys leaves no watcher.
reject_watchers_all :
    (m : Map ℕ) (st : State)
    → st.watchers ≡ m
    → (reject_watchers (map (λ e. e.0) m) st).watchers ≡ []
unfolding reject_watchers
reject_watchers_all [] st e = e
reject_watchers_all ((k, v) ∷ m) st e =
    reject_watchers_all m (reject_shutdown none k st) (head_removed k v m none st e)

-- After the final clean-up the controller owns nothing: no slot, no index entry, no capacity
-- waiter, no watcher.
pub record IsDrained (st : State) : Type 0 where
  pub no_slots : st.slots ≡ []
  pub no_queued : st.queued_slots ≡ []
  pub no_waiting : st.capacity_pending ≡ []
  pub no_watchers : st.watchers ≡ []

abbrev pub pending_values : State → List ℕ
pending_values st =
    map (λ p. p.owned) (map (λ e. e.1.pending) st.capacity_pending ++ queued_of st.slots)

abbrev waiters_rejected : State → State
waiters_rejected st = reject_waiters st.capacity_pending (record st { capacity_pending = [] })

abbrev slots_rejected : State → State
slots_rejected st = reject_slots st.slots (waiters_rejected st)

all_Told :
    (st : State)
    → Told st (reject_watchers (map (λ e. e.0) (slots_rejected st).watchers) (slots_rejected st))
all_Told st = join (reject_waiters-Told st.capacity_pending (record st { capacity_pending = [] })) (
    join (reject_slots-Told st.slots (waiters_rejected st))
      (reject_watchers-Told (map (λ e. e.0) (slots_rejected st).watchers) (slots_rejected st)))

-- The final clean-up empties the controller, sends as many answers as there were watchers, and
-- gives every task value that was still waiting for capacity or queued, in that order, to reserved
-- cleanup.
pub finalize_slot_state_on_shutdown-IsDrained :
    (st : State)
    → let st' = finalize_slot_state_on_shutdown st in
      IsDrained st'
      × (length st'.outcomes ≡ length st.outcomes + length st.watchers)
      × (st'.disposed ≡ st.disposed ++ pending_values st)
unfolding finalize_slot_state_on_shutdown dispose_all
finalize_slot_state_on_shutdown-IsDrained st = (
  record { no_slots = refl; no_queued = refl; no_waiting = refl; no_watchers = gone },
  ground (arith, gone, (all_Told st).0),
  rw ((all_Told st).1) refl,
)
  where
    gone :
        (reject_watchers (map (λ e. e.0) (slots_rejected st).watchers) (slots_rejected st)).watchers
        ≡ []
    gone = reject_watchers_all (slots_rejected st).watchers (slots_rejected st) refl

-- What the undelivered commands carry: their task values, and the watched channels of submissions.
abbrev pub values_of : List Command → List ℕ
values_of [] = []
values_of (submit sub ∷ cs) = sub.owned ∷ values_of cs
values_of (manage_identity id ∷ cs) = values_of cs

abbrev pub rejections_of : List Command → List (ℕ × RejectionKind)
rejections_of [] = []
rejections_of (submit sub ∷ cs) = sent sub.done controller_shutting_down ++ rejections_of cs
rejections_of (manage_identity id ∷ cs) = rejections_of cs

drain_commands-values :
    (cs : List Command) (st : State)
    → ((drain_commands cs st).1 ≡ values_of cs)
      × ((drain_commands cs st).0.outcomes ≡ st.outcomes ++ rejections_of cs)
      × ((drain_commands cs st).0.disposed ≡ st.disposed)
      × ((drain_commands cs st).0.slots ≡ st.slots)
unfolding drain_commands
drain_commands-values [] st = (refl, sym (append-nil st.outcomes), refl, refl)
drain_commands-values (submit sub ∷ cs) st =
    let st' = send_rejected sub.done controller_shutting_down (
      publish (controller_rejected (some (slot_name_of sub)) sub.id controller_shutting_down) st) in
    let k = drain_commands-values cs st' in
    (
      ap (λ l. sub.owned ∷ l) k.0,
      k.1 ∙ append_assoc st.outcomes (sent sub.done controller_shutting_down) (rejections_of cs),
      k.2,
      k.3,
    )
drain_commands-values (manage_identity id ∷ cs) st = drain_commands-values cs st

-- The commands that the loop never took are drained at its end: every watched submission among them
-- is answered with a rejection, in order, every task value goes to reserved cleanup, and no slot
-- changes.
pub drain_pending_on_shutdown-values :
    (cs : List Command) (st : State)
    → ((drain_pending_on_shutdown cs st).outcomes ≡ st.outcomes ++ rejections_of cs)
      × ((drain_pending_on_shutdown cs st).disposed ≡ st.disposed ++ values_of cs)
      × ((drain_pending_on_shutdown cs st).slots ≡ st.slots)
unfolding drain_pending_on_shutdown
drain_pending_on_shutdown-values cs st =
    let k = drain_commands-values cs st in (k.1, rw (k.0, k.2) refl, k.3)
