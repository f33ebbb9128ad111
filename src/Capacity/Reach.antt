-- ===== src/Capacity/Reach.antt =====
-- The broker of src/core/deferred_drop/capacity.rs as a transition system: every operation in any
-- order, with `held` the sum of the units of all live permits.
use taskvisor.Prelude.{
  ℕ, ◌+◌, ◌-◌, ◌≤◌, ◌<◌, ◌≡◌, refl, Bool, true, false, none, some, arith, lookup,
}
use mathlib.Core.Path.{subst, ◌∙◌}
use taskvisor.Capacity.{
  CapacityMode, limited, unlimited, Broker, new, dispatch_locked, close_waiters_locked,
  return_capacity_locked, release, try_acquire, ready, parked, start_acquire_one, close, permit,
  failed, poll_request, cancel, retire,
}
use taskvisor.Capacity.Dispatch.{granted_count}
use taskvisor.Capacity.Accounting.{ModeAccounted, Accounted, TakeAccounted}
use taskvisor.Capacity.Accounting.{release-Accounted, new-Accounted}
use taskvisor.Capacity.Requests.{
  StartAccounted, PollAccounted, try_acquire-Accounted, start_acquire_one-Accounted,
  close-Accounted, poll_request-Accounted,
}
use taskvisor.Capacity.Cancel.{cancel-Accounted}
use taskvisor.Capacity.Retirement.{retire-Accounted}

-- The broker and the units in permits, after any sequence of operations.
pub data Reach (limit : ℕ) : Broker → ℕ → Type 0 where
  opened : Reach limit (new limit) 0
  batch :
      {b b' : Broker} {held : ℕ} (units : ℕ)
      → Reach limit b held
      → try_acquire b units ≡ some b'
      → Reach limit b' (held + units)
  one :
      {b b' : Broker} {held : ℕ} (signal : ℕ)
      → Reach limit b held
      → lookup signal b.signals ≡ none
      → start_acquire_one b signal ≡ ready b'
      → Reach limit b' (held + 1)
  wait :
      {b b' : Broker} {held : ℕ} (signal : ℕ)
      → Reach limit b held
      → lookup signal b.signals ≡ none
      → start_acquire_one b signal ≡ parked b'
      → Reach limit b' held
  observe :
      {b b' : Broker} {held : ℕ} (signal : ℕ)
      → Reach limit b held
      → poll_request b signal ≡ permit b'
      → Reach limit b' (held + 1)
  give_up :
      {b b' : Broker} {held : ℕ} (signal : ℕ)
      → Reach limit b held
      → poll_request b signal ≡ failed b'
      → Reach limit b' held
  abandon :
      {b : Broker} {held : ℕ} (signal : ℕ) → Reach limit b held → Reach limit (cancel b signal) held
  give_back :
      {b : Broker} {held : ℕ} (units : ℕ)
      → Reach limit b held
      → units ≤ held
      → Reach limit (release b units) (held - units)
  lose :
      {b : Broker} {held : ℕ} (units : ℕ)
      → Reach limit b held
      → units ≤ held
      → Reach limit (retire b units) (held - units)
  shut : {b : Broker} {held : ℕ} → Reach limit b held → Reach limit (close b) held

-- The books of every reachable broker balance: no unit is used twice, an open broker loses none,
-- its requests wait in a bounded line without repetition, and only while no unit is free.
pub Reach-Accounted : {limit : ℕ} {b : Broker} {held : ℕ} → Reach limit b held → Accounted b held
Reach-Accounted {limit} opened = new-Accounted limit
Reach-Accounted {b = b'} (batch {b} {held = held} units r e) =
    subst (TakeAccounted (held + units)) e (try_acquire-Accounted b held units (Reach-Accounted r))
Reach-Accounted {b = b'} (one {b} {held = held} signal r n e) =
    subst (StartAccounted held) e (start_acquire_one-Accounted b signal held n (Reach-Accounted r))
Reach-Accounted {b = b'} (wait {b} {held = held} signal r n e) =
    subst (StartAccounted held) e (start_acquire_one-Accounted b signal held n (Reach-Accounted r))
Reach-Accounted {b = b'} (observe {b} {held = held} signal r e) =
    subst (PollAccounted held) e (poll_request-Accounted b signal held (Reach-Accounted r))
Reach-Accounted {b = b'} (give_up {b} {held = held} signal r e) =
    subst (PollAccounted held) e (poll_request-Accounted b signal held (Reach-Accounted r))
Reach-Accounted (abandon {b} {held} signal r) = cancel-Accounted b signal held (Reach-Accounted r)
Reach-Accounted (give_back {b} {held} units r u) =
    (release-Accounted b held units u (Reach-Accounted r)).0
Reach-Accounted (lose {b} {held} units r u) = retire-Accounted b held units u (Reach-Accounted r)
Reach-Accounted (shut {b} {held} r) = close-Accounted b held (Reach-Accounted r)

-- The limit stays, and a finite broker stays finite.
abbrev is_finite : CapacityMode → Bool
is_finite (limited l) = true
is_finite unlimited = false

abbrev Same : Broker → Broker → Type 0
Same b b' = (b'.limit ≡ b.limit) × (is_finite b'.mode ≡ is_finite b.mode)

release-Same : (b : Broker) (units : ℕ) → Same b (release b units)
unfolding release return_capacity_locked dispatch_locked close_waiters_locked
release-Same b units = ground arith

cancel-Same : (b : Broker) (signal : ℕ) → Same b (cancel b signal)
unfolding cancel return_capacity_locked dispatch_locked close_waiters_locked
cancel-Same b signal = ground arith

retire-Same : (b : Broker) (units : ℕ) → Same b (retire b units)
unfolding retire return_capacity_locked dispatch_locked close_waiters_locked
retire-Same b units = ground arith

close-Same : (b : Broker) → Same b (close b)
unfolding close close_waiters_locked
close-Same b = ground arith

try_acquire-Same : (b b' : Broker) (units : ℕ) → try_acquire b units ≡ some b' → Same b b'
unfolding try_acquire
try_acquire-Same b b' units e = ground arith

ready-Same : (b b' : Broker) (signal : ℕ) → start_acquire_one b signal ≡ ready b' → Same b b'
unfolding start_acquire_one
ready-Same b b' signal e = ground arith

parked-Same : (b b' : Broker) (signal : ℕ) → start_acquire_one b signal ≡ parked b' → Same b b'
unfolding start_acquire_one
parked-Same b b' signal e = ground arith

permit-Same : (b b' : Broker) (signal : ℕ) → poll_request b signal ≡ permit b' → Same b b'
unfolding poll_request close close_waiters_locked
permit-Same b b' signal e = ground arith

failed-Same : (b b' : Broker) (signal : ℕ) → poll_request b signal ≡ failed b' → Same b b'
unfolding poll_request close close_waiters_locked
failed-Same b b' signal e = ground arith

join : {k m n : ℕ} {x y z : Bool} → (m ≡ k) × (y ≡ x) → (n ≡ m) × (z ≡ y) → (n ≡ k) × (z ≡ x)
join p q = (q.0 ∙ p.0, q.1 ∙ p.1)

Reach-Same : {limit : ℕ} {b : Broker} {held : ℕ} → Reach limit b held → Same (new limit) b
Reach-Same opened = (refl, refl)
Reach-Same (batch {b} {b'} units r e) = join (Reach-Same r) (try_acquire-Same b b' units e)
Reach-Same (one {b} {b'} signal r n e) = join (Reach-Same r) (ready-Same b b' signal e)
Reach-Same (wait {b} {b'} signal r n e) = join (Reach-Same r) (parked-Same b b' signal e)
Reach-Same (observe {b} {b'} signal r e) = join (Reach-Same r) (permit-Same b b' signal e)
Reach-Same (give_up {b} {b'} signal r e) = join (Reach-Same r) (failed-Same b b' signal e)
Reach-Same (abandon {b} signal r) = join (Reach-Same r) (cancel-Same b signal)
Reach-Same (give_back {b} units r u) = join (Reach-Same r) (release-Same b units)
Reach-Same (lose {b} units r u) = join (Reach-Same r) (retire-Same b units)
Reach-Same (shut {b} r) = join (Reach-Same r) (close-Same b)

finite_limit :
    (limit : ℕ) (b : Broker) (held : ℕ)
    → 0 < limit
    → Accounted b held
    → Same (new limit) b
    → held + granted_count b.signals ≤ limit
unfolding new
finite_limit limit b held p a s = by_mode b.mode a s.1
  where
    by_mode :
        (mode : CapacityMode)
        → ModeAccounted b.limit b.is_closed b.signals held mode
        → is_finite mode ≡ is_finite (new limit).mode
        → held + granted_count b.signals ≤ limit
    by_mode unlimited c e = ground (arith, p)
    by_mode (limited l) c e = omega (arith, c.0.total, c.0.within, s.0)

-- However the operations interleave, the units in permits and in unobserved grants never exceed
-- the limit of a finite broker.
pub Reach_bounded :
    {limit : ℕ} {b : Broker} {held : ℕ}
    → 0 < limit
    → Reach limit b held
    → held + granted_count b.signals ≤ limit
Reach_bounded {limit} {b} {held} p r =
    finite_limit limit b held p (Reach-Accounted r) (Reach-Same r)
