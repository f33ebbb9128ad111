-- ===== src/Capacity.antt =====
-- src/core/deferred_drop/capacity.rs: the broker of ownership units, finite or unlimited, with FIFO
-- waiters of one unit each. A `CapacitySignal` is a number, and `signals` its atomic status; the
-- broker's mutex makes each operation atomic. Wakeups are not modelled: a request future is polled
-- by `poll_request` whenever its owner likes. `retirements` lists what the reporter was told.
pub mod Dispatch
pub mod Accounting
pub mod Requests
pub mod Cancel
pub mod Retirement
pub mod Reach
use taskvisor.Prelude.{
  ℕ, zero, suc, ◌+◌, ◌-◌, ◌≡◌, Bool, true, false, ◌||◌, Option, none, some, List, [], ◌∷◌, ◌++◌,
  leb, ltb, ◌==◌, if◌then◌else◌, length, erase, Map, lookup, insert,
}

pub data Status : Type 0 where
  waiting granted closed taken canceled : Status

pub record Limited : Type 0 where
  pub available : ℕ
  pub effective_capacity : ℕ
  pub waiters : List ℕ

pub data CapacityMode : Type 0 where
  limited : Limited → CapacityMode
  unlimited : CapacityMode

pub record CapacityRetirement : Type 0 where
  pub configured_capacity : ℕ
  pub effective_capacity : ℕ
  pub retired_units : ℕ

-- `limit` is 0 for `None`: a finite limit is not zero.
pub record Broker : Type 0 where
  pub limit : ℕ
  pub is_closed : Bool
  pub mode : CapacityMode
  pub signals : Map Status
  pub retirements : List CapacityRetirement

unfoldable pub new : ℕ → Broker
new limit = record {
  limit = limit;
  is_closed = false;
  mode =
      if limit == 0
      then unlimited
      else limited (record { available = limit; effective_capacity = limit; waiters = [] });
  signals = [];
  retirements = [];
}

-- `dispatch_limited`: what is left of the units and of the queue, and the signals.
unfoldable pub dispatch_limited : ℕ → List ℕ → Map Status → ℕ × List ℕ × Map Status
dispatch_limited zero ws signals = (zero, ws, signals)
dispatch_limited (suc available) [] signals = (suc available, [], signals)
dispatch_limited (suc available) (w ∷ ws) signals =
    dispatch_limited available ws (insert w granted signals)

abbrev pub dispatched : Broker → ℕ → ℕ × List ℕ × Map Status → Broker
dispatched b effective (available, ws, signals) = record b {
  mode = limited (record { available = available; effective_capacity = effective; waiters = ws });
  signals = signals;
}

abbrev pub dispatch_mode : Broker → CapacityMode → Broker
dispatch_mode b unlimited = b
dispatch_mode b (limited l) =
    dispatched b l.effective_capacity (dispatch_limited l.available l.waiters b.signals)

unfoldable pub dispatch_locked : Broker → Broker
unfolding dispatch_limited
dispatch_locked b = if b.is_closed then b else dispatch_mode b b.mode

unfoldable pub close_signals : List ℕ → Map Status → Map Status
close_signals [] signals = signals
close_signals (w ∷ ws) signals = close_signals ws (insert w closed signals)

abbrev pub close_mode : Broker → CapacityMode → Broker
close_mode b unlimited = b
close_mode b (limited l) = record b {
  mode = limited (record l { waiters = [] });
  signals = close_signals l.waiters b.signals;
}

unfoldable pub close_waiters_locked : Broker → Broker
unfolding close_signals
close_waiters_locked b = close_mode b b.mode

-- `return_capacity_locked`; the `checked_add` cannot overflow on unbounded numbers.
abbrev pub return_mode : Broker → ℕ → CapacityMode → Broker × Bool
return_mode b units unlimited = (b, true)
return_mode b units (limited l) =
    if ltb l.effective_capacity (l.available + units)
    then (record b { is_closed = true }, false)
    else (record b { mode = limited (record l { available = l.available + units }) }, true)

unfoldable pub return_capacity_locked : Broker → ℕ → Broker × Bool
return_capacity_locked b units = return_mode b units b.mode

abbrev pub after_return : Broker × Bool → Broker
after_return (b, true) = dispatch_locked b
after_return (b, false) = close_waiters_locked b

unfoldable pub release : Broker → ℕ → Broker
unfolding return_capacity_locked dispatch_locked close_waiters_locked
release b units = if units == 0 then b else after_return (return_capacity_locked b units)

-- The `try_acquire` that a batch makes: `none` is `DropCapacityError`, else a permit of `units`.
abbrev pub try_take : Broker → ℕ → CapacityMode → Option Broker
try_take b units unlimited = some b
try_take b units (limited l) =
    if ltb l.effective_capacity units || ltb 0 (length l.waiters) || ltb l.available units
    then none
    else some (record b { mode = limited (record l { available = l.available - units }) })

abbrev pub exceeds : ℕ → ℕ → Bool
exceeds limit units = if limit == 0 then false else ltb limit units

unfoldable pub try_acquire : Broker → ℕ → Option Broker
try_acquire b units =
    if units == 0 || exceeds b.limit units
    then none
    else if b.is_closed
    then none
    else try_take b units b.mode

-- `CapacityStart`, and the refusal.
pub data CapacityStart : Type 0 where
  ready : Broker → CapacityStart
  parked : Broker → CapacityStart
  refused : CapacityStart

-- A request enters the bounded queue with its new signal.
abbrev pub park : Broker → ℕ → Limited → CapacityStart
park b signal l =
    if leb b.limit (length l.waiters)
    then refused
    else parked (record b {
      mode = limited (record l { waiters = l.waiters ++ signal ∷ [] });
      signals = insert signal waiting b.signals;
    })

abbrev pub start_take : Broker → ℕ → CapacityMode → CapacityStart
start_take b signal unlimited = ready b
start_take b signal (limited l) =
    if l.effective_capacity == 0
    then refused
    else if length l.waiters == 0
    then (if ltb 0 l.available
        then ready (record b { mode = limited (record l { available = l.available - 1 }) })
        else park b signal l)
    else park b signal l

-- `signal` is the request's new signal.
unfoldable pub start_acquire_one : Broker → ℕ → CapacityStart
start_acquire_one b signal = if b.is_closed then refused else start_take b signal b.mode

unfoldable pub close : Broker → Broker
unfolding close_waiters_locked
close b = if b.is_closed then b else close_waiters_locked (record b { is_closed = true })

-- What a poll of `CapacityRequest::wait` finds.
pub data Poll : Type 0 where
  pending : Poll
  permit : Broker → Poll
  failed : Broker → Poll

abbrev pub poll_status : Broker → ℕ → Option Status → Poll
poll_status b signal (some waiting) = pending
poll_status b signal (some granted) = permit (record b { signals = insert signal taken b.signals })
poll_status b signal (some closed) = failed b
poll_status b signal _ = failed (close b)

unfoldable pub poll_request : Broker → ℕ → Poll
unfolding close
poll_request b signal = poll_status b signal (lookup signal b.signals)

abbrev pub mark_canceled : Broker → ℕ → Broker
mark_canceled b signal = record b { signals = insert signal canceled b.signals }

abbrev pub cancel_waiting : Broker → ℕ → CapacityMode → Broker
cancel_waiting b signal unlimited = mark_canceled (record b { is_closed = true }) signal
cancel_waiting b signal (limited l) = dispatch_locked (
    mark_canceled (record b { mode = limited (record l { waiters = erase signal l.waiters }) })
      signal)

abbrev pub cancel_granted : ℕ → Broker × Bool → Broker
cancel_granted signal (b, true) = dispatch_locked (mark_canceled b signal)
cancel_granted signal (b, false) = close_waiters_locked (mark_canceled b signal)

abbrev pub cancel_status : Broker → ℕ → Option Status → Broker
cancel_status b signal (some waiting) = cancel_waiting b signal b.mode
cancel_status b signal (some granted) = cancel_granted signal (return_capacity_locked b 1)
cancel_status b signal (some closed) = dispatch_locked (mark_canceled b signal)
cancel_status b signal _ = b

-- `Drop for CapacityRequest` of an active request.
unfoldable pub cancel : Broker → ℕ → Broker
unfolding dispatch_locked close_waiters_locked return_capacity_locked erase
cancel b signal = cancel_status b signal (lookup signal b.signals)

abbrev pub retire_limited : Broker → ℕ → Limited → Broker
retire_limited b units l =
    let effective = l.effective_capacity - units in
    let shut = close_waiters_locked (record b { is_closed = true }) in
    let retired = record b {
      mode = limited (record l { effective_capacity = effective });
      retirements =
          b.retirements
          ++ record {
            configured_capacity = b.limit;
            effective_capacity = effective;
            retired_units = units;
          }
            ∷ [];
    } in
    if ltb l.effective_capacity units
    then shut
    else if ltb effective l.available
    then shut
    else if effective == 0
    then close_waiters_locked (record retired { is_closed = true })
    else dispatch_locked retired

abbrev pub retire_mode : Broker → ℕ → CapacityMode → Broker
retire_mode b units unlimited = b
retire_mode b units (limited l) = retire_limited b units l

unfoldable pub retire : Broker → ℕ → Broker
unfolding dispatch_locked close_waiters_locked
retire b units = if units == 0 then b else if b.is_closed then b else retire_mode b units b.mode
