-- ===== src/Capacity/Cancel.antt =====
-- The books of the broker of src/core/deferred_drop/capacity.rs when a request is dropped.
use taskvisor.Prelude.{
  ℕ, ◌+◌, ◌≡◌, refl, Bool, false, Option, none, some, arith, ltb, erase, Map, lookup, insert,
}
use taskvisor.Capacity.{
  Status, waiting, granted, closed, taken, canceled, Limited, CapacityMode, limited, unlimited,
  Broker, return_mode, return_capacity_locked, mark_canceled, cancel_waiting, cancel_granted,
  cancel_status, cancel,
}
use taskvisor.Capacity.Dispatch.{
  grants, granted_count-insert, Line-insert, Line-erase, Line-contains, length-erase,
}
use taskvisor.Capacity.Accounting.{
  Counted, ModeAccounted, Accounted, ModeCounted, dispatch_locked-Accounted,
}

canceled-Counted :
    (limit : ℕ) (shut : Bool) (signals : Map Status) (held signal : ℕ) (l : Limited)
    → grants (lookup signal signals) ≡ 0
    → Counted limit shut signals held l
    → Counted limit shut
        (insert signal canceled signals)
        held
        (record l { waiters = erase signal l.waiters })
unfolding erase
canceled-Counted limit shut signals held signal l g c = record {
  total = omega (arith, c.total, g, granted_count-insert signal canceled signals);
  exact = λ k. omega (arith, c.exact k, g, granted_count-insert signal canceled signals);
  within = c.within;
  line = Line-erase signal canceled l.waiters signals c.line;
  short = omega (arith, c.short, length-erase signal l.waiters);
  drained = λ k. rw (c.drained k) refl;
}

cancel_waiting-Accounted :
    (b : Broker) (signal held : ℕ) (mode : CapacityMode)
    → lookup signal b.signals ≡ some waiting
    → ModeAccounted b.limit b.is_closed b.signals held mode
    → Accounted (cancel_waiting (record b { mode = mode }) signal mode) held
cancel_waiting-Accounted b signal held unlimited e c = tt
cancel_waiting-Accounted b signal held (limited l) e c =
    dispatch_locked-Accounted
      (mark_canceled (record b { mode = limited (record l { waiters = erase signal l.waiters }) })
        signal)
      held (canceled-Counted b.limit b.is_closed b.signals held signal l (rw e refl) c.0)

-- The unit of a grant that nobody observed is free again.
regained-Counted :
    (limit : ℕ) (shut : Bool) (signals : Map Status) (held signal : ℕ) (l : Limited)
    → lookup signal signals ≡ some granted
    → Counted limit shut signals held l
    → Counted limit shut
        (insert signal canceled signals)
        held
        (record l { available = l.available + 1 })
regained-Counted limit shut signals held signal l g c = record {
  total = ground (arith, c, granted_count-insert signal canceled signals);
  exact = λ k. ground (arith, c.exact k, granted_count-insert signal canceled signals);
  within = c.within;
  line =
      Line-insert signal canceled l.waiters signals
        (Line-contains signal l.waiters signals c.line (λ w. cc)) c.line;
  short = c.short;
  drained = c.drained;
}

regained_fits :
    (limit : ℕ) (shut : Bool) (signals : Map Status) (held signal : ℕ) (l : Limited)
    → lookup signal signals ≡ some granted
    → Counted limit shut signals held l
    → ltb l.effective_capacity (l.available + 1) ≡ false
regained_fits limit shut signals held signal l g c =
    ground (arith, c.total, granted_count-insert signal canceled signals)

cancel_granted-Accounted :
    (b : Broker) (signal held : ℕ) (mode : CapacityMode)
    → lookup signal b.signals ≡ some granted
    → ModeAccounted b.limit b.is_closed b.signals held mode
    → Accounted (cancel_granted signal (return_mode (record b { mode = mode }) 1 mode)) held
cancel_granted-Accounted b signal held unlimited e c =
    dispatch_locked-Accounted (mark_canceled (record b { mode = unlimited }) signal) held tt
cancel_granted-Accounted b signal held (limited l) e c =
    rw (regained_fits b.limit b.is_closed b.signals held signal l e c.0) (
      dispatch_locked-Accounted
        (mark_canceled (record b { mode = limited (record l { available = l.available + 1 }) })
          signal)
        held (regained-Counted b.limit b.is_closed b.signals held signal l e c.0))

marked-Counted :
    (limit : ℕ) (shut : Bool) (signals : Map Status) (held signal : ℕ) (mode : CapacityMode)
    → lookup signal signals ≡ some closed
    → ModeAccounted limit shut signals held mode
    → ModeCounted limit shut (insert signal canceled signals) held mode
marked-Counted limit shut signals held signal unlimited e c = tt
marked-Counted limit shut signals held signal (limited l) e c = record {
  total = ground (arith, c.0, granted_count-insert signal canceled signals);
  exact = λ k. ground (arith, c.0.exact k, granted_count-insert signal canceled signals);
  within = c.0.within;
  line =
      Line-insert signal canceled l.waiters signals
        (Line-contains signal l.waiters signals c.0.line (λ w. cc)) c.0.line;
  short = c.0.short;
  drained = c.0.drained;
}

cancel_status-Accounted :
    (b : Broker) (signal held : ℕ) (s : Option Status)
    → lookup signal b.signals ≡ s
    → Accounted b held
    → Accounted (cancel_status b signal s) held
unfolding return_capacity_locked
cancel_status-Accounted b signal held (some waiting) e c =
    cancel_waiting-Accounted b signal held b.mode e c
cancel_status-Accounted b signal held (some granted) e c =
    cancel_granted-Accounted b signal held b.mode e c
cancel_status-Accounted b signal held (some closed) e c =
    dispatch_locked-Accounted (mark_canceled b signal) held
      (marked-Counted b.limit b.is_closed b.signals held signal b.mode e c)
cancel_status-Accounted b signal held (some taken) e c = c
cancel_status-Accounted b signal held (some canceled) e c = c
cancel_status-Accounted b signal held none e c = c

-- Dropping a request gives back the unit of a grant that it did not observe, and nothing else.
pub cancel-Accounted :
    (b : Broker) (signal held : ℕ) → Accounted b held → Accounted (cancel b signal) held
unfolding cancel
cancel-Accounted b signal held c =
    cancel_status-Accounted b signal held (lookup signal b.signals) refl c
