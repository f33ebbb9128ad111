-- ===== src/Controller/Ownership/Moves.antt =====
-- What each single move of a submission keeps: into and out of a queue, the capacity waiters and
-- the Add commands.
use taskvisor.Prelude.{
  ℕ, ◌+◌, ◌≤◌, ◌≡◌, false, Option, none, some, List, [], ◌∷◌, ◌++◌, arith, length, Map, IsMap,
  lookup, insert, remove, lookup-insert, lookup-remove, length-insert, length-remove, insert-IsMap,
  remove-IsMap, Within, Within-suc, Within-mono, at_limit,
}
use taskvisor.Slot.{TaskId, PendingSubmission, SlotPhase, SlotState}
use taskvisor.Controller.State.{Name, CapacityPending}
use taskvisor.Controller.Ownership.{
  one, count_id, count_tracked, at_slot, Waits, Owned, mk, put, Absent,
}

count_id-append :
    (a : TaskId) (xs ys : List PendingSubmission)
    → count_id a (xs ++ ys) ≡ count_id a xs + count_id a ys
unfolding count_id
count_id-append a [] ys = omega arith
count_id-append a (x ∷ xs) ys = ground (arith, count_id-append a xs ys)

pub count_tracked-append :
    (a : TaskId) (xs ys : List (TaskId × Name))
    → count_tracked a (xs ++ ys) ≡ count_tracked a xs + count_tracked a ys
unfolding count_tracked
count_tracked-append a [] ys = omega arith
count_tracked-append a ((i, n) ∷ xs) ys = ground (arith, count_tracked-append a xs ys)

module _ (l : Option ℕ) (v : Name → SlotState) (name : Name) (ph : SlotPhase)
    (q : List PendingSubmission) (idx : Map Name) (wait : Map CapacityPending)
    (adm : List (TaskId × Name)) where
  -- The queue changes and the phase does not: what has to be shown of the index.
  queue-Owned :
      (q' : List PendingSubmission) (idx' : Map Name)
      → Owned l (put v name (mk ph q)) idx wait adm
      → IsMap idx'
      → ((n : Name) (a : TaskId)
          → count_id a (put v name (mk ph q') n).queue ≡ at_slot n (lookup a idx'))
      → ((a : TaskId) → one (lookup a idx') + one (lookup a wait) + count_tracked a adm ≤ 1)
      → Within l (length idx' + length wait)
      → Owned l (put v name (mk ph q')) idx' wait adm
  queue-Owned q' idx' h m c o b = record {
    index_map = m;
    waiting_map = h.waiting_map;
    counts = c;
    once = o;
    bounded = b;
    waits = λ a. kept a (lookup a wait) (h.waits a);
  }
    where
      kept :
          (a : TaskId) (w : Option CapacityPending)
          → Waits (put v name (mk ph q)) a w
          → Waits (put v name (mk ph q')) a w
      kept a none k = tt
      kept a (some w) k = ground arith

  pub push-Owned :
      (p : PendingSubmission)
      → Absent p.id idx wait adm
      → at_limit l (length idx + length wait) ≡ false
      → Owned l (put v name (mk ph q)) idx wait adm
      → Owned l (put v name (mk ph (q ++ p ∷ []))) (insert p.id name idx) wait adm
  unfolding count_id
  push-Owned p fresh room h =
      queue-Owned (q ++ p ∷ []) (insert p.id name idx) h (insert-IsMap p.id name idx h.index_map)
        (λ n a.
          ground (arith, h.counts n a, lookup-insert p.id a name idx, count_id-append a q (p ∷ [])))
        (λ a. ground (arith, h.once a, lookup-insert p.id a name idx))
        (Within-suc l (length idx + length wait) _ room
          (ground (arith, length-insert p.id name idx)))

module _ (l : Option ℕ) (v : Name → SlotState) (name : Name) (ph : SlotPhase)
    (q : List PendingSubmission) (idx : Map Name) (wait : Map CapacityPending)
    (adm : List (TaskId × Name)) where
  pub pop-Owned :
      (p : PendingSubmission)
      → Owned l (put v name (mk ph (p ∷ q))) idx wait adm
      → Owned l (put v name (mk ph q)) (remove p.id idx) wait adm
  unfolding count_id
  pop-Owned p h =
      queue-Owned l v name ph (p ∷ q) idx wait adm q (remove p.id idx) h
        (remove-IsMap p.id idx h.index_map)
        (λ n a.
          ground (arith, h.counts n a, h.counts name p.id, lookup-remove p.id a idx h.index_map))
        (λ a. ground (arith, h.once a, lookup-remove p.id a idx h.index_map))
        (Within-mono l (length idx + length wait) _ h.bounded
          (ground (arith, length-remove p.id idx)))

  pub pop-Absent :
      (p : PendingSubmission)
      → Owned l (put v name (mk ph (p ∷ q))) idx wait adm
      → Absent p.id (remove p.id idx) wait adm
  unfolding count_id
  pop-Absent p h =
      ground (arith, h.counts name p.id, h.once p.id, lookup-remove p.id p.id idx h.index_map)

  pub swap-Owned :
      (p head : PendingSubmission)
      → Absent p.id idx wait adm
      → Owned l (put v name (mk ph (head ∷ q))) idx wait adm
      → Owned l (put v name (mk ph (p ∷ q))) (insert p.id name (remove head.id idx)) wait adm
  unfolding count_id
  swap-Owned p head fresh h =
      let out = remove head.id idx in
      queue-Owned l v name ph (head ∷ q) idx wait adm (p ∷ q) (insert p.id name out) h
        (insert-IsMap p.id name out (remove-IsMap head.id idx h.index_map))
        (λ n a. ground (
          arith,
          h.counts n a,
          h.counts name head.id,
          lookup-insert p.id a name out,
          lookup-remove head.id a idx h.index_map,
        ))
        (λ a.
          ground (
            arith,
            h.once a,
            lookup-insert p.id a name out,
            lookup-remove head.id a idx h.index_map,
          ))
        (Within-mono l (length idx + length wait) _ h.bounded (
          ground
            (arith, h.counts name head.id, length-insert p.id name out, length-remove head.id idx)))
