-- ===== src/Controller/Pump/Line.antt =====
-- The line of reservations of `CapacityAdmissionPump`, src/controller/engine/operations.rs.
use taskvisor.Prelude.{
  ℕ, ◌+◌, ◌≤◌, ◌≡◌, refl, false, some, List, [], ◌∷◌, ◌++◌, arith, length-append, contains, erase,
}
use taskvisor.Slot.{TaskId}
use taskvisor.Controller.Pump.{Pump, len, start_next, enqueue, cancel, next, line, line_of}

start_next-line : (p : Pump) → line (start_next p) ≡ line p
unfolding start_next line
start_next-line p = ground arith

-- A reservation that is accepted goes to the end of the line, and the line keeps within its limit.
pub enqueue-line :
    (p p' : Pump) (id : TaskId)
    → enqueue p id ≡ some p'
    → (line p' ≡ line p ++ id ∷ []) × (len p' ≡ len p + 1) × (len p' ≤ p'.limit)
unfolding enqueue line start_next len
enqueue-line p p' id e = ground (arith, length-append p.queued (id ∷ []))

-- A result is for the head of the line, which leaves it.
pub next-line : (p : Pump) → line p ≡ line_of (next p).1 (line (next p).0)
unfolding next line start_next
next-line p = ground arith

erase_absent : (a : ℕ) (xs : List ℕ) → contains a xs ≡ false → erase a xs ≡ xs
unfolding contains erase
erase_absent a [] h = refl
erase_absent a (x ∷ xs) h = ground (arith, erase_absent a xs)

-- A canceled reservation leaves the line, the others keep their order, and the answer says whether
-- it was there.
pub cancel-line :
    (p : Pump) (id : TaskId)
    → (line (cancel p id).0 ≡ erase id (line p)) × ((cancel p id).1 ≡ contains id (line p))
unfolding cancel line start_next contains erase
cancel-line p id = ground (arith, erase_absent id p.queued)
