-- ===== src/Capacity/Requests.antt =====
-- The books of the broker of src/core/deferred_drop/capacity.rs across a batch, a single request,
-- a poll and a close.
use taskvisor.Prelude.{
  ℕ, ◌+◌, ◌-◌, ◌≡◌, refl, inl, inr, Bool, true, false, ◌||◌, Option, none, some, [], ◌∷◌, ◌++◌,
  arith, leb, ltb, ◌==◌, if◌then◌else◌, length, length-append, Map, lookup, insert, Bool-cases,
}
use taskvisor.Capacity.{
  Status, waiting, granted, closed, taken, canceled, Limited, CapacityMode, limited, unlimited,
  Broker, close_mode, close_waiters_locked, try_take, try_acquire, exceeds, CapacityStart, ready,
  parked, refused, park, start_take, start_acquire_one, close, Poll, pending, permit, failed,
  poll_status, poll_request,
}
use taskvisor.Capacity.Dispatch.{
  granted_count, granted_count-insert, Line-insert, Line-append, Line-contains,
}
use taskvisor.Capacity.Accounting.{
  Counted, ModeAccounted, Accounted, ModeCounted, TakeAccounted, try_take-Accounted, close-Counted,
}

-- A batch that is admitted takes all its units at once, out of free ones.
pub try_acquire-Accounted :
    (b : Broker) (held units : ℕ)
    → Accounted b held
    → TakeAccounted (held + units) (try_acquire b units)
unfolding try_acquire
try_acquire-Accounted b held units c = guarded (units == 0 || exceeds b.limit units) b.is_closed
  where
    guarded :
        (x y : Bool)
        → TakeAccounted
            (held + units)
            (if x then none else if y then none else try_take b units b.mode)
    guarded true y = tt
    guarded false true = tt
    guarded false false = try_take-Accounted b b.mode held units c

abbrev pub StartAccounted : ℕ → CapacityStart → Type 0
StartAccounted held (ready b) = Accounted b (held + 1)
StartAccounted held (parked b) = Accounted b held
StartAccounted held refused = Unit {0}

park-Accounted :
    (b : Broker) (signal held : ℕ) (l : Limited)
    → Counted b.limit b.is_closed b.signals held l
    → b.is_closed ≡ false
    → l.available ≡ 0
    → lookup signal b.signals ≡ none
    → StartAccounted held (park b signal l)
park-Accounted b signal held l c o z n = guarded (leb b.limit (length l.waiters)) refl
  where
    same : granted_count (insert signal waiting b.signals) ≡ granted_count b.signals
    same = ground (arith, n, granted_count-insert signal waiting b.signals)

    guarded :
        (full : Bool)
        → leb b.limit (length l.waiters) ≡ full
        → StartAccounted held (
            if full
            then refused
            else parked (record b {
              mode = limited (record l { waiters = l.waiters ++ signal ∷ [] });
              signals = insert signal waiting b.signals;
            }))
    guarded true e = tt
    guarded false e = (
      record {
        total = omega (arith, c.total, same);
        exact = λ k. omega (arith, c.exact k, same);
        within = c.within;
        line = Line-append signal l.waiters b.signals n c.line;
        short = ground (arith, length-append l.waiters (signal ∷ []));
        drained = λ k. cc;
      },
      λ k. inl z,
    )

start_take-Accounted :
    (b : Broker) (signal held : ℕ) (mode : CapacityMode)
    → b.is_closed ≡ false
    → lookup signal b.signals ≡ none
    → ModeAccounted b.limit b.is_closed b.signals held mode
    → StartAccounted held (start_take (record b { mode = mode }) signal mode)
start_take-Accounted b signal held unlimited o n c = tt
start_take-Accounted b signal held (limited l) o n c =
    guarded (l.effective_capacity == 0) (length l.waiters == 0) (ltb 0 l.available) refl refl
  where
    at : Broker
    at = record b { mode = limited l }

    idle : length l.waiters == 0 ≡ false → l.available ≡ 0
    idle e = ground (arith, c.1 o)

    guarded :
        (x y z : Bool)
        → length l.waiters == 0 ≡ y
        → ltb 0 l.available ≡ z
        → StartAccounted held (
            if x
            then refused
            else if y
            then (if z
                then ready (record b { mode = limited (record l { available = l.available - 1 }) })
                else park (record b { mode = limited l }) signal l)
            else park (record b { mode = limited l }) signal l)
    guarded true y z e f = tt
    guarded false true true e f = (
      record {
        total = ground (arith, c.0);
        exact = λ k. ground (arith, c.0.exact k);
        within = c.0.within;
        line = c.0.line;
        short = c.0.short;
        drained = c.0.drained;
      },
      λ k. inr (ground arith),
    )
    guarded false true false e f =
        park-Accounted (record b { mode = limited l }) signal held l c.0 o (ground arith) n
    guarded false false z e f =
        park-Accounted (record b { mode = limited l }) signal held l c.0 o (idle e) n

-- A single request with a new signal is granted a free unit at once, waits or is refused.
pub start_acquire_one-Accounted :
    (b : Broker) (signal held : ℕ)
    → lookup signal b.signals ≡ none
    → Accounted b held
    → StartAccounted held (start_acquire_one b signal)
unfolding start_acquire_one
start_acquire_one-Accounted b signal held n c = elim (Bool-cases b.is_closed) [
  | inl e ↦ shut e
  | inr e ↦ opened e
]
  where
    shut :
        b.is_closed ≡ true
        → StartAccounted held (if b.is_closed then refused else start_take b signal b.mode)
    shut e = rw e tt

    choose :
        (x : Bool)
        → x ≡ false
        → StartAccounted held (start_take b signal b.mode)
        → StartAccounted held (if x then refused else start_take b signal b.mode)
    choose true e k = tt
    choose false e k = k

    opened :
        b.is_closed ≡ false
        → StartAccounted held (if b.is_closed then refused else start_take b signal b.mode)
    opened e = choose b.is_closed e (start_take-Accounted b signal held b.mode e n c)

pub close_mode-Accounted :
    (b : Broker) (held : ℕ) (mode : CapacityMode)
    → ModeCounted b.limit b.is_closed b.signals held mode
    → Accounted (close_mode (record b { is_closed = true; mode = mode }) mode) held
close_mode-Accounted b held unlimited c = tt
close_mode-Accounted b held (limited l) c =
    (close-Counted b.limit b.is_closed b.signals held l c, λ e. cc)

counted :
    (limit : ℕ) (shut : Bool) (signals : Map Status) (held : ℕ) (mode : CapacityMode)
    → ModeAccounted limit shut signals held mode
    → ModeCounted limit shut signals held mode
counted limit shut signals held unlimited c = tt
counted limit shut signals held (limited l) c = c.0

pub close-Accounted : (b : Broker) (held : ℕ) → Accounted b held → Accounted (close b) held
unfolding close close_waiters_locked
close-Accounted b held c =
    choose b.is_closed c
      (close_mode-Accounted b held b.mode (counted b.limit b.is_closed b.signals held b.mode c))
  where
    choose :
        (x : Bool)
        → Accounted b held
        → Accounted (close_waiters_locked (record b { is_closed = true })) held
        → Accounted (if x then b else close_waiters_locked (record b { is_closed = true })) held
    choose true p q = p
    choose false p q = q

abbrev pub PollAccounted : ℕ → Poll → Type 0
PollAccounted held pending = Unit {0}
PollAccounted held (permit b) = Accounted b (held + 1)
PollAccounted held (failed b) = Accounted b held

observed-Accounted :
    (limit : ℕ) (shut : Bool) (signals : Map Status) (held signal : ℕ) (mode : CapacityMode)
    → lookup signal signals ≡ some granted
    → ModeAccounted limit shut signals held mode
    → ModeAccounted limit shut (insert signal taken signals) (held + 1) mode
observed-Accounted limit shut signals held signal unlimited g c = tt
observed-Accounted limit shut signals held signal (limited l) g c = (
  record {
    total = ground (arith, c.0, granted_count-insert signal taken signals);
    exact = λ k. ground (arith, c.0.exact k, granted_count-insert signal taken signals);
    within = c.0.within;
    line =
        Line-insert signal taken l.waiters signals
          (Line-contains signal l.waiters signals c.0.line (λ w. cc)) c.0.line;
    short = c.0.short;
    drained = c.0.drained;
  },
  c.1,
)

poll_status-Accounted :
    (b : Broker) (signal held : ℕ) (s : Option Status)
    → lookup signal b.signals ≡ s
    → Accounted b held
    → PollAccounted held (poll_status b signal s)
poll_status-Accounted b signal held (some waiting) e c = tt
poll_status-Accounted b signal held (some granted) e c =
    observed-Accounted b.limit b.is_closed b.signals held signal b.mode e c
poll_status-Accounted b signal held (some closed) e c = c
poll_status-Accounted b signal held (some taken) e c = close-Accounted b held c
poll_status-Accounted b signal held (some canceled) e c = close-Accounted b held c
poll_status-Accounted b signal held none e c = close-Accounted b held c

-- A request takes the unit that it was granted, once: the unit moves from the grant to a permit.
pub poll_request-Accounted :
    (b : Broker) (signal held : ℕ) → Accounted b held → PollAccounted held (poll_request b signal)
unfolding poll_request
poll_request-Accounted b signal held c =
    poll_status-Accounted b signal held (lookup signal b.signals) refl c
