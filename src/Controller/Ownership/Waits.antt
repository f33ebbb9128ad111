-- ===== src/Controller/Ownership/Waits.antt =====
-- What each change of an owner's phase keeps, and each move into and out of the capacity waiters
-- and the Add commands.
use taskvisor.Prelude.{
  ℕ, suc, ◌+◌, ◌≤◌, ◌≡◌, refl, ◌⊎◌, true, false, Option, none, some, List, [], ◌∷◌, ◌++◌, arith,
  ◌==◌, if◌then◌else◌, length, Map, lookup, insert, remove, lookup-insert, lookup-remove,
  length-insert, length-remove, insert-IsMap, remove-IsMap, Within-suc, Within-mono, at_limit,
}
use taskvisor.Slot.{
  TaskId, Instant, PendingSubmission, SlotPhase, idle, admitting, SlotState, awaits_decision,
}
use taskvisor.Controller.State.{Name, CapacityPending}
use taskvisor.Controller.Queue.{remove_queued, find_queued}
use taskvisor.Controller.Loop.{is_tracked, untrack}
use taskvisor.Controller.Ownership.{count_id, count_tracked, Waits, Owned, mk, put, Absent}
use taskvisor.Controller.Ownership.Moves.{count_tracked-append}

module _ (l : Option ℕ) (v : Name → SlotState) (name : Name) (ph : SlotPhase)
    (q : List PendingSubmission) (idx : Map Name) (wait : Map CapacityPending)
    (adm : List (TaskId × Name)) where
  -- The owner's phase changes: the waiter for which the slot awaited a decision must have gone, or
  -- the slot must still await it.
  pub phase-Owned :
      (ph' : SlotPhase)
      → ((a : TaskId)
          → awaits_decision ph a ≡ true
          → (lookup a wait ≡ none) ⊎ (awaits_decision ph' a ≡ true))
      → Owned l (put v name (mk ph q)) idx wait adm
      → Owned l (put v name (mk ph' q)) idx wait adm
  phase-Owned ph' keep h = record {
    index_map = h.index_map;
    waiting_map = h.waiting_map;
    counts = λ n a. ground (arith, h.counts n a);
    once = h.once;
    bounded = h.bounded;
    waits = λ a. kept a (lookup a wait) refl (h.waits a);
  }
    where
      kept :
          (a : TaskId) (w : Option CapacityPending)
          → lookup a wait ≡ w
          → Waits (put v name (mk ph q)) a w
          → Waits (put v name (mk ph' q)) a w
      kept a none e k = tt
      kept a (some w) e k = ground (arith, keep a)

  -- An Add command is sent for a task that nothing holds.
  pub commit-Owned :
      (id : TaskId) (n₀ : Name)
      → Absent id idx wait adm
      → Owned l (put v name (mk ph q)) idx wait adm
      → Owned l (put v name (mk ph q)) idx wait (adm ++ (id, n₀) ∷ [])
  unfolding count_tracked
  commit-Owned id n₀ fresh h = record {
    index_map = h.index_map;
    waiting_map = h.waiting_map;
    counts = h.counts;
    once = λ a. ground (arith, h.once a, count_tracked-append a adm ((id, n₀) ∷ []));
    bounded = h.bounded;
    waits = h.waits;
  }

  -- A capacity waiter is claimed.
  pub claim-Owned :
      (id : TaskId)
      → Owned l (put v name (mk ph q)) idx wait adm
      → Owned l (put v name (mk ph q)) idx (remove id wait) adm
  claim-Owned id h = record {
    index_map = h.index_map;
    waiting_map = remove-IsMap id wait h.waiting_map;
    counts = h.counts;
    once = λ a. ground (arith, h.once a, lookup-remove id a wait h.waiting_map);
    bounded =
        Within-mono l (length idx + length wait) _ h.bounded
          (ground (arith, length-remove id wait));
    waits = λ a. ground (arith, h.waits a, lookup-remove id a wait h.waiting_map);
  }

  pub claim-Absent :
      (id : TaskId) {w : CapacityPending}
      → lookup id wait ≡ some w
      → Owned l (put v name (mk ph q)) idx wait adm
      → Absent id idx (remove id wait) adm
  claim-Absent id e h = ground (arith, h.once id, lookup-remove id id wait h.waiting_map)

module _ (l : Option ℕ) (v : Name → SlotState) (name : Name) (q : List PendingSubmission)
    (idx : Map Name) (wait : Map CapacityPending) (adm : List (TaskId × Name)) (id : TaskId)
    (t : Instant) (fresh : Absent id idx wait adm) where
  -- An idle slot starts the admission of a task whose Add command is sent.
  pub admit-Owned :
      Owned l (put v name (mk idle q)) idx wait adm
      → Owned l (put v name (mk (admitting id t) q)) idx wait (adm ++ (id, name) ∷ [])
  admit-Owned h =
      commit-Owned l v name (admitting id t) q idx wait adm id name fresh
        (phase-Owned l v name idle q idx wait adm (admitting id t) (λ a e. cc) h)

  -- An idle slot starts the admission of a task that waits for registry capacity.
  pub wait-Owned :
      (p : PendingSubmission)
      → at_limit l (length idx + length wait) ≡ false
      → Owned l (put v name (mk idle q)) idx wait adm
      → Owned l
          (put v name (mk (admitting id t) q))
          idx
          (insert id (record { slot_name = name; pending = p }) wait)
          adm
  wait-Owned p room h =
      let w : CapacityPending = record { slot_name = name; pending = p } in
      record {
        index_map = h.index_map;
        waiting_map = insert-IsMap id w wait h.waiting_map;
        counts = λ n a. ground (arith, h.counts n a);
        once = λ a. ground (arith, h.once a, lookup-insert id a w wait);
        bounded =
            Within-suc l (length idx + length wait) _ room
              (ground (arith, length-insert id w wait));
        waits =
            λ a. ground (arith, waits_on a (lookup a wait) (h.waits a), lookup-insert id a w wait);
      }
    where
      waits_on :
          (a : TaskId) (w : Option CapacityPending)
          → Waits (put v name (mk idle q)) a w
          → Waits (put v name (mk (admitting id t) q)) a w
      waits_on a none k = tt
      waits_on a (some w) k = ground arith

module _ (l : Option ℕ) (v : Name → SlotState) (idx : Map Name) (wait : Map CapacityPending)
    (adm : List (TaskId × Name)) (id : TaskId) (n₀ : Name) where
  count_tracked-untrack :
      (a : TaskId) (xs : List (TaskId × Name))
      → count_tracked a (untrack id n₀ xs) ≤ count_tracked a xs
  unfolding count_tracked untrack
  count_tracked-untrack a [] = omega arith
  count_tracked-untrack a ((i, n) ∷ xs) = ground (arith, count_tracked-untrack a xs)

  untracked :
      (xs : List (TaskId × Name))
      → is_tracked id n₀ xs ≡ true
      → suc (count_tracked id (untrack id n₀ xs)) ≡ count_tracked id xs
  unfolding count_tracked untrack is_tracked
  untracked [] e = cc
  untracked ((i, n) ∷ xs) e = ground (arith, untracked xs)

  -- The reply to an Add command arrives.
  pub reply-Owned : Owned l v idx wait adm → Owned l v idx wait (untrack id n₀ adm)
  reply-Owned h = record {
    index_map = h.index_map;
    waiting_map = h.waiting_map;
    counts = h.counts;
    once = λ a. omega (arith, h.once a, count_tracked-untrack a adm);
    bounded = h.bounded;
    waits = h.waits;
  }

  pub reply-Absent :
      is_tracked id n₀ adm ≡ true → Owned l v idx wait adm → Absent id idx wait (untrack id n₀ adm)
  reply-Absent e h = omega (arith, h.once id, untracked adm e)

module _ (l : Option ℕ) (v : Name → SlotState) (name : Name) (ph : SlotPhase)
    (q : List PendingSubmission) (idx : Map Name) (wait : Map CapacityPending)
    (adm : List (TaskId × Name)) (id : TaskId) where
  count_id-remove_queued :
      (a : TaskId) (xs : List PendingSubmission) {p : PendingSubmission}
      → find_queued id xs ≡ some p
      → count_id a (remove_queued id xs) + (if id == a then 1 else 0) ≡ count_id a xs
  unfolding count_id remove_queued find_queued
  count_id-remove_queued a [] e = cc
  count_id-remove_queued a (x ∷ xs) {p} e = ground (arith, count_id-remove_queued a xs {p = p})

  -- A queued submission is removed from the middle of its queue.
  pub remove_queued-Owned :
      {p : PendingSubmission}
      → find_queued id q ≡ some p
      → Owned l (put v name (mk ph q)) idx wait adm
      → Owned l (put v name (mk ph (remove_queued id q))) (remove id idx) wait adm
  remove_queued-Owned e h = record {
    index_map = remove-IsMap id idx h.index_map;
    waiting_map = h.waiting_map;
    counts = λ n a. ground (
      arith,
      h.counts n a,
      h.counts name id,
      count_id-remove_queued a q e,
      count_id-remove_queued id q e,
      lookup-remove id a idx h.index_map,
    );
    once = λ a. ground (arith, h.once a, lookup-remove id a idx h.index_map);
    bounded =
        Within-mono l (length idx + length wait) _ h.bounded (ground (arith, length-remove id idx));
    waits = λ a. kept a (lookup a wait) (h.waits a);
  }
    where
      kept :
          (a : TaskId) (w : Option CapacityPending)
          → Waits (put v name (mk ph q)) a w
          → Waits (put v name (mk ph (remove_queued id q))) a w
      kept a none k = tt
      kept a (some w) k = ground arith
