-- ===== src/Capacity/Accounting.antt =====
-- The books of the broker of src/core/deferred_drop/capacity.rs: free units, grants and permits.
-- `held` is the sum of the units of all live `OwnershipPermit`s.
use taskvisor.Prelude.{
  ℕ, ◌+◌, ◌-◌, ◌≤◌, ◌≡◌, refl, ◌⊎◌, inl, inr, Bool, true, false, ◌||◌, Option, none, some, [],
  arith, ltb, ◌==◌, length, Map, Bool-cases,
}
use taskvisor.Capacity.{
  Status, Limited, CapacityMode, limited, unlimited, Broker, new, dispatch_limited, dispatch_locked,
  close_signals, return_mode, after_return, release, try_take,
}
use taskvisor.Capacity.Dispatch.{
  granted_count, Line, dispatch_limited-total, dispatch_limited-Line, dispatch_limited-length,
  dispatch_limited_busy, granted_count-close_signals,
}

-- The books of a finite broker.
pub record Counted (limit : ℕ) (shut : Bool) (signals : Map Status) (held : ℕ) (l : Limited)
    : Type 0 where
  -- No unit is used twice.
  pub total : l.available + held + granted_count signals ≤ l.effective_capacity
  -- While the broker is open no unit is lost.
  pub exact : shut ≡ false → l.available + held + granted_count signals ≡ l.effective_capacity
  pub within : l.effective_capacity ≤ limit
  pub line : Line l.waiters signals
  pub short : length l.waiters ≤ limit
  pub drained : shut ≡ true → l.waiters ≡ []

-- While the broker is open nobody waits behind a free unit.
abbrev pub IsBusy : Bool → Limited → Type 0
IsBusy shut l = shut ≡ false → (l.available ≡ 0) ⊎ (l.waiters ≡ [])

abbrev pub ModeAccounted : ℕ → Bool → Map Status → ℕ → CapacityMode → Type 0
ModeAccounted limit shut signals held unlimited = Unit {0}
ModeAccounted limit shut signals held (limited l) =
    Counted limit shut signals held l × IsBusy shut l

abbrev pub Accounted : Broker → ℕ → Type 0
Accounted b held = ModeAccounted b.limit b.is_closed b.signals held b.mode

-- The books before `dispatch_locked` or `close_waiters_locked` puts them in order.
abbrev pub ModeCounted : ℕ → Bool → Map Status → ℕ → CapacityMode → Type 0
ModeCounted limit shut signals held unlimited = Unit {0}
ModeCounted limit shut signals held (limited l) = Counted limit shut signals held l

pub new-Accounted : (limit : ℕ) → Accounted (new limit) 0
unfolding new granted_count
new-Accounted limit = elim (Bool-cases (limit == 0)) [
  | inl e ↦ rw e tt
  | inr e ↦ rw e (
    record {
      total = omega arith;
      exact = λ e. omega arith;
      within = omega arith;
      line = tt;
      short = omega arith;
      drained = λ e. cc;
    },
    λ e. inr refl,
  )
]

dispatch-Counted :
    (limit : ℕ) (signals : Map Status) (held : ℕ) (l : Limited)
    → Counted limit false signals held l
    → let d = dispatch_limited l.available l.waiters signals in
      let l' : Limited = record l { available = d.0; waiters = d.1 } in
      Counted limit false d.2 held l' × IsBusy false l'
dispatch-Counted limit signals held l c = (
  record {
    total = omega (arith, c, dispatch_limited-total l.available l.waiters signals c.line);
    exact = λ e.
        omega (arith, c.exact refl, dispatch_limited-total l.available l.waiters signals c.line);
    within = c.within;
    line = dispatch_limited-Line l.available l.waiters signals c.line;
    short = omega (arith, c.short, dispatch_limited-length l.available l.waiters signals);
    drained = λ e. cc;
  },
  λ e. dispatch_limited_busy l.available l.waiters signals,
)

pub dispatch_locked-Accounted :
    (b : Broker) (held : ℕ)
    → ModeCounted b.limit b.is_closed b.signals held b.mode
    → Accounted (dispatch_locked b) held
unfolding dispatch_locked
dispatch_locked-Accounted b held c = by_mode b.limit b.is_closed b.signals b.mode c
  where
    by_mode :
        (limit : ℕ) (shut : Bool) (signals : Map Status) (mode : CapacityMode)
        → ModeCounted limit shut signals held mode
        → Accounted
            (dispatch_locked
              (record b { limit = limit; is_closed = shut; signals = signals; mode = mode }))
            held
    by_mode limit true signals unlimited c = tt
    by_mode limit false signals unlimited c = tt
    by_mode limit true signals (limited l) c = (c, λ e. cc)
    by_mode limit false signals (limited l) c = dispatch-Counted limit signals held l c

pub close-Counted :
    (limit : ℕ) (shut : Bool) (signals : Map Status) (held : ℕ) (l : Limited)
    → Counted limit shut signals held l
    → Counted limit true (close_signals l.waiters signals) held (record l { waiters = [] })
close-Counted limit shut signals held l c = record {
  total = omega (arith, c, granted_count-close_signals l.waiters signals c.line);
  exact = λ e. cc;
  within = c.within;
  line = tt;
  short = omega arith;
  drained = λ e. refl;
}

-- A permit returns some of its units.
returned-Counted :
    (limit : ℕ) (shut : Bool) (signals : Map Status) (held units : ℕ) (l : Limited)
    → units ≤ held
    → Counted limit shut signals held l
    → Counted limit shut signals (held - units) (record l { available = l.available + units })
returned-Counted limit shut signals held units l u c = record {
  total = omega (arith, c);
  exact = λ e. omega (arith, c.exact e);
  within = c.within;
  line = c.line;
  short = c.short;
  drained = c.drained;
}

dispatch_locked-is_closed : (b : Broker) → (dispatch_locked b).is_closed ≡ b.is_closed
unfolding dispatch_locked
dispatch_locked-is_closed b = ground arith

-- The guard of `return_capacity_locked` passes.
return_fits :
    (limit : ℕ) (shut : Bool) (signals : Map Status) (held units : ℕ) (l : Limited)
    → units ≤ held
    → Counted limit shut signals held l
    → ltb l.effective_capacity (l.available + units) ≡ false
return_fits limit shut signals held units l u c = ground arith

return_mode-Accounted :
    (b : Broker) (mode : CapacityMode) (held units : ℕ)
    → units ≤ held
    → ModeAccounted b.limit b.is_closed b.signals held mode
    → Accounted (after_return (return_mode (record b { mode = mode }) units mode)) (held - units)
      × ((after_return (return_mode (record b { mode = mode }) units mode)).is_closed ≡ b.is_closed)
return_mode-Accounted b unlimited held units u c = (
  dispatch_locked-Accounted (record b { mode = unlimited }) (held - units) tt,
  dispatch_locked-is_closed _,
)
return_mode-Accounted b (limited l) held units u c =
    rw (return_fits b.limit b.is_closed b.signals held units l u c.0) (
      dispatch_locked-Accounted
          (record b { mode = limited (record l { available = l.available + units }) })
          (held - units) (returned-Counted b.limit b.is_closed b.signals held units l u c.0),
      dispatch_locked-is_closed _,
    )

-- Dropping a permit, or a part of one, gives its units back: the books still balance, and the
-- broker does not close.
pub release-Accounted :
    (b : Broker) (held units : ℕ)
    → units ≤ held
    → Accounted b held
    → Accounted (release b units) (held - units) × ((release b units).is_closed ≡ b.is_closed)
unfolding release
release-Accounted b held units u c = elim (Bool-cases (units == 0)) [
  | inl z ↦ rw (z, same z) (c, refl)
  | inr p ↦ rw p (return_mode-Accounted b b.mode held units u c)
]
  where
    same : units == 0 ≡ true → held - units ≡ held
    same z = ground arith

abbrev pub TakeAccounted : ℕ → Option Broker → Type 0
TakeAccounted held none = Unit {0}
TakeAccounted held (some b) = Accounted b held

pub try_take-Accounted :
    (b : Broker) (mode : CapacityMode) (held units : ℕ)
    → ModeAccounted b.limit b.is_closed b.signals held mode
    → TakeAccounted (held + units) (try_take (record b { mode = mode }) units mode)
try_take-Accounted b unlimited held units c = tt
try_take-Accounted b (limited l) held units c = elim (Bool-cases (busy l)) [
  | inl e ↦ rw e tt
  | inr e ↦ rw e (
    record {
      total = ground (arith, c.0);
      exact = λ k. ground (arith, c.0.exact k);
      within = c.0.within;
      line = c.0.line;
      short = c.0.short;
      drained = c.0.drained;
    },
    λ k. ground (arith, c.1 k),
  )
]
  where
    busy : Limited → Bool
    busy l = ltb l.effective_capacity units || ltb 0 (length l.waiters) || ltb l.available units
