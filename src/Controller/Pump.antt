-- ===== src/Controller/Pump.antt =====
-- src/controller/engine/operations.rs, `CapacityAdmissionPump`: the bounded queue of registry
-- capacity reservations, at most one of which is polled. The reservation future itself belongs to
-- the registry: its result reaches `next` as the argument of the handler that receives it.
pub mod Line
use taskvisor.Prelude.{
  ℕ, suc, ◌+◌, ◌≤◌, ◌<◌, ◌≡◌, refl, Bool, true, false, ◌||◌, Option, none, some, List, [], ◌∷◌,
  ◌++◌, arith, ltb, leb, ◌==◌, if◌then◌else◌, is_some, length, length-append, contains, erase,
}
use taskvisor.Slot.{TaskId}

pub record Pump : Type 0 where
  pub limit : ℕ
  pub queued : List TaskId
  pub active : Option TaskId

unfoldable pub new : ℕ → Pump
new limit = record { limit = limit; queued = []; active = none }

abbrev pub active_count : Option TaskId → ℕ
active_count none = 0
active_count (some id) = 1

unfoldable pub len : Pump → ℕ
len p = active_count p.active + length p.queued

abbrev pub is_nil : List TaskId → Bool
is_nil [] = true
is_nil (x ∷ xs) = false

abbrev pub is_none : Option TaskId → Bool
is_none none = true
is_none (some id) = false

unfoldable pub is_empty : Pump → Bool
is_empty p = if is_none p.active then is_nil p.queued else false

abbrev pub start_queued : List TaskId → Pump → Pump
start_queued [] p = p
start_queued (id ∷ rest) p = record p { queued = rest; active = some id }

unfoldable pub start_next : Pump → Pump
start_next p = if is_some p.active then p else start_queued p.queued p

-- `Err(limit)` is `none`: the limit is a field of the pump.
unfoldable pub enqueue : Pump → TaskId → Option Pump
unfolding len start_next
enqueue p id =
    if leb p.limit (len p)
    then none
    else some (start_next (record p { queued = p.queued ++ id ∷ [] }))

abbrev pub is_active : Option TaskId → TaskId → Bool
is_active none id = false
is_active (some a) id = a == id

unfoldable pub cancel : Pump → TaskId → Pump × Bool
unfolding start_next contains erase
cancel p id =
    if is_active p.active id
    then (start_next (record p { active = none }), true)
    else if contains id p.queued
    then (record p { queued = erase id p.queued }, true)
    else (p, false)

abbrev pub take_result : Pump → Pump × Option TaskId
take_result p = (start_queued p.queued (record p { active = none }), p.active)

-- `next`, at the moment when the active reservation resolves: the identity it resolves for.
unfoldable pub next : Pump → Pump × Option TaskId
unfolding start_next
next p = take_result (start_next p)

-- The identities in the order in which their reservations resolve.
abbrev pub line_of : Option TaskId → List TaskId → List TaskId
line_of none queued = queued
line_of (some id) queued = id ∷ queued

unfoldable pub line : Pump → List TaskId
line p = line_of p.active p.queued
