-- ===== src/Controller/Placement/Policies.antt =====
-- What each admission policy of src/controller/policy.rs does to a slot with an owner.
use mathlib.Core.List.{append-nil}
use taskvisor.Prelude.{
  ℕ, ◌+◌, ◌≤◌, ◌<◌, true, false, ◌≡◌, refl, ap, sym, ◌∙◌, ◌⊎◌, inl, inr, Option, none, some, List,
  [], ◌∷◌, ◌++◌, length, insert, leb, at_limit, Bool-cases, arith,
}
use taskvisor.Slot.{
  TaskId, Instant, PendingSubmission, SlotPhase, idle, admitting, cancel_pending_admission, running,
  terminating, SlotState, phase_owner, request_replacement,
}
use taskvisor.Controller.State.{
  Name, State, Runtime, RejectionKind, resource_limit, slot_busy, pending_len, finalize_rejected,
}
use taskvisor.Controller.Queue
use taskvisor.Controller.Queue.{
  try_push_queued, replace_head_or_push, try_replace_head_or_push, index_queued,
}
use taskvisor.Controller.Placement.{
  AdmissionPolicy, drop_if_running, replace, queue, Placement, accepted, rejected, handoff_failed,
  replaced, replace_owner, queue_submission, by_policy, by_phase, apply,
}

-- The queue after a replacement, and what it displaces.
abbrev pub replacing : PendingSubmission → List PendingSubmission → List PendingSubmission
replacing p [] = p ∷ []
replacing p (head ∷ rest) = p ∷ rest

abbrev pub displaced : List PendingSubmission → Option PendingSubmission
displaced [] = none
displaced (head ∷ rest) = some head

-- Whether the controller may let one more submission wait.
abbrev pub HasRoom : Option ℕ → ℕ → Type 0
HasRoom none used = Unit {0}
HasRoom (some limit) used = used < limit

abbrev pub IsFull : Option ℕ → ℕ → Type 0
IsFull none used = ⊥
IsFull (some limit) used = limit ≤ used

abbrev pub all_waiting : State → ℕ
all_waiting st = length st.queued_slots + length st.capacity_pending

abbrev pub IsEmpty : List PendingSubmission → Type 0
IsEmpty [] = Unit {0}
IsEmpty (head ∷ rest) = ⊥

-- What a replacement does to the owner: one that runs is told to stop, one that is being admitted
-- will be stopped; the removal of the running one is ordered.
abbrev pub retiring : Instant → SlotPhase → SlotPhase
retiring now (running owner t) = terminating owner now
retiring now (admitting owner t) = cancel_pending_admission owner now
retiring now phase = phase

abbrev pub removal_of : Name → SlotPhase → List (TaskId × Name)
removal_of name (running owner t) = (owner, name) ∷ []
removal_of name _ = []

-- Why a policy may reject a submission to a busy slot.
abbrev pub MayReject : AdmissionPolicy → RejectionKind → SlotState → State → Type 0
MayReject drop_if_running kind slot st = kind ≡ slot_busy
MayReject queue kind slot st =
    ((kind ≡ RejectionKind.queue_full) × (st.config.max_slot_queue ≤ length slot.queue))
    ⊎ ((kind ≡ resource_limit)
        × (length slot.queue < st.config.max_slot_queue)
        × IsFull st.config.max_total_pending (all_waiting st))
MayReject replace kind slot st =
    (kind ≡ resource_limit)
    × IsEmpty slot.queue
    × IsFull st.config.max_total_pending (all_waiting st)

-- What a policy promises for a slot that is not idle.
abbrev pub Promise :
    Instant → AdmissionPolicy → Name → PendingSubmission → SlotState → State → Placement → Type 0
Promise now drop_if_running name p slot st (accepted slot' st' d) = ⊥
Promise now queue name p slot st (accepted slot' st' d) =
    (length slot.queue < st.config.max_slot_queue)
    × HasRoom st.config.max_total_pending (all_waiting st)
    × (slot'.queue ≡ slot.queue ++ p ∷ [])
    × (slot'.phase ≡ slot.phase)
    × (st'.queued_slots ≡ insert p.id name st.queued_slots)
    × (st'.removals ≡ st.removals)
    × (d ≡ none)
Promise now replace name p slot st (accepted slot' st' d) =
    (IsEmpty slot.queue → HasRoom st.config.max_total_pending (all_waiting st))
    × (slot'.queue ≡ replacing p slot.queue)
    × (phase_owner slot'.phase ≡ phase_owner slot.phase)
    × (slot'.phase ≡ retiring now slot.phase)
    × (st'.removals ≡ st.removals ++ removal_of name slot.phase)
    × (d ≡ displaced slot.queue)
Promise now policy name p slot st (rejected q kind slot' st') =
    (q ≡ p) × (slot' ≡ slot) × (st' ≡ st) × MayReject policy kind slot st
Promise now policy name p slot st (handoff_failed q kind slot' st') = ⊥

IsFull-or_room :
    (limit : Option ℕ) (used : ℕ)
    → ((at_limit limit used ≡ true) × IsFull limit used)
      ⊎ ((at_limit limit used ≡ false) × HasRoom limit used)
IsFull-or_room none used = inr (refl, tt)
IsFull-or_room (some limit) used = elim (Bool-cases (leb limit used)) [
  | inl h ↦ inl (h, ground (arith, h))
  | inr h ↦ inr (h, ground (arith, h))
]

queue_submission-Promise :
    (now : Instant) (name : Name) (slot : SlotState) (p : PendingSubmission) (st : State)
    → Promise now queue name p slot st (queue_submission name slot p st)
unfolding queue_submission Queue.queue_full try_push_queued pending_len index_queued
queue_submission-Promise now name slot p st =
    elim (Bool-cases (leb st.config.max_slot_queue (length slot.queue))) [
      | inl full ↦ simp (full) (refl, refl, refl, inl (refl, ground (arith, full)))
      | inr below ↦ elim (IsFull-or_room st.config.max_total_pending (all_waiting st)) [
        | inl (e, none_left) ↦
            simp (below, e) (refl, refl, refl, inr (refl, ground (arith, below), none_left))
        | inr (e, room) ↦
            simp (below, e) (ground (arith, below), room, refl, refl, refl, refl, refl)
      ]
    ]

module _ (r : Runtime) (name : Name) (p : PendingSubmission) (st : State) where
  retire_owner-Promise :
      (phase : SlotPhase) (old after : List PendingSubmission) (d : Option PendingSubmission)
      (st' : State)
      → (IsEmpty old → HasRoom st.config.max_total_pending (all_waiting st))
      → after ≡ replacing p old
      → st'.removals ≡ st.removals
      → d ≡ displaced old
      → Promise r.now replace name p
          (record { phase = phase; queue = old })
          st
          (replaced r name p
            (record { phase = phase; queue = old })
            st
            (some (record { phase = phase; queue = after }, st', d)))
  unfolding phase_owner request_replacement
  retire_owner-Promise idle old after d st' room e s k =
      (room, e, refl, refl, s ∙ sym (append-nil st.removals), k)
  retire_owner-Promise (admitting owner t) old after d st' room e s k =
      (room, e, refl, refl, s ∙ sym (append-nil st.removals), k)
  retire_owner-Promise (cancel_pending_admission owner t) old after d st' room e s k =
      (room, e, refl, refl, s ∙ sym (append-nil st.removals), k)
  retire_owner-Promise (running owner t) old after d st' room e s k =
      (room, e, refl, refl, ap (λ l. l ++ (owner, name) ∷ []) s, k)
  retire_owner-Promise (terminating owner t) old after d st' room e s k =
      (room, e, refl, refl, s ∙ sym (append-nil st.removals), k)

  replace_owner-Promise :
      (phase : SlotPhase) (old : List PendingSubmission)
      → Promise r.now replace name p
          (record { phase = phase; queue = old })
          st
          (replace_owner r name (record { phase = phase; queue = old }) p st)
  unfolding replace_owner try_replace_head_or_push replace_head_or_push pending_len
      finalize_rejected
  replace_owner-Promise phase [] =
      elim (IsFull-or_room st.config.max_total_pending (all_waiting st)) [
        | inl (e, none_left) ↦ simp (e) (refl, refl, refl, (refl, tt, none_left))
        | inr (e, room) ↦
            simp (e) (retire_owner-Promise phase [] (p ∷ []) none _ (λ h. room) refl refl refl)
      ]
  replace_owner-Promise phase (head ∷ rest) =
      retire_owner-Promise phase (head ∷ rest) (p ∷ rest) (some head) _ (λ h. absurd h) refl refl
        refl

-- A busy slot. `DropIfRunning` rejects every submission as busy. `Queue` appends behind the owner
-- and everything that waits when the slot's queue and the controller are below their limits; it
-- rejects exactly when one of the two is reached, and says which. `Replace` puts the submission at
-- the head in place of the previous one, orders the removal of a running owner and marks one that
-- is being admitted to be stopped; it rejects exactly when nothing waits in the slot and the
-- controller's limit is reached. The owner keeps the slot, and a rejection changes nothing.
pub apply_busy :
    (r : Runtime) (name : Name) (policy : AdmissionPolicy) (slot : SlotState)
    (p : PendingSubmission) (st : State) (owner : TaskId)
    → phase_owner slot.phase ≡ some owner
    → Promise r.now policy name p slot st (apply r name policy slot p st)
unfolding phase_owner apply
apply_busy r name policy slot p st owner h = by_phase_of slot.phase h
  where
    by_policy_of :
        (policy : AdmissionPolicy)
        → Promise r.now policy name p slot st (by_policy r name policy slot p st)
    by_policy_of drop_if_running = (refl, refl, refl, refl)
    by_policy_of queue = queue_submission-Promise r.now name slot p st
    by_policy_of replace = replace_owner-Promise r name p st slot.phase slot.queue

    by_phase_of :
        (phase : SlotPhase)
        → phase_owner phase ≡ some owner
        → Promise r.now policy name p slot st (by_phase r name phase policy slot p st)
    by_phase_of idle e = absurd (ground (arith, e))
    by_phase_of (admitting current t) e = by_policy_of policy
    by_phase_of (cancel_pending_admission current t) e = by_policy_of policy
    by_phase_of (running current t) e = by_policy_of policy
    by_phase_of (terminating current t) e = by_policy_of policy
