-- ===== src/Capacity/Retirement.antt =====
-- The books of the broker of src/core/deferred_drop/capacity.rs when units are retired.
use taskvisor.Prelude.{
  ℕ, ◌-◌, ◌≤◌, ◌≡◌, refl, Bool, true, false, [], ◌∷◌, ◌++◌, arith, ltb, ◌==◌, if◌then◌else◌, Map,
}
use taskvisor.Capacity.{
  Status, Limited, CapacityMode, limited, unlimited, Broker, close_waiters_locked, retire_limited,
  retire_mode, retire,
}
use taskvisor.Capacity.Requests.{close_mode-Accounted}
use taskvisor.Capacity.Accounting.{Counted, ModeAccounted, Accounted, dispatch_locked-Accounted}

retired-Counted :
    (limit : ℕ) (shut : Bool) (signals : Map Status) (held units : ℕ) (l : Limited)
    → units ≤ held
    → Counted limit shut signals held l
    → Counted limit shut signals
        (held - units)
        (record l { effective_capacity = l.effective_capacity - units })
retired-Counted limit shut signals held units l u c = record {
  total = omega (arith, c.total);
  exact = λ k. omega (arith, c.exact k);
  within = omega (arith, c.within);
  line = c.line;
  short = c.short;
  drained = c.drained;
}

abbrev fewer : ℕ → Limited → Limited
fewer units l = record l { effective_capacity = l.effective_capacity - units }

abbrev told : Broker → ℕ → Limited → Broker
told b units l = record b {
  mode = limited (fewer units l);
  retirements =
      b.retirements
      ++ record {
        configured_capacity = b.limit;
        effective_capacity = l.effective_capacity - units;
        retired_units = units;
      }
        ∷ [];
}

choose :
    (held : ℕ) (x y z : Bool) (p q r s : Broker)
    → x ≡ false
    → y ≡ false
    → Accounted r held
    → Accounted s held
    → Accounted (if x then p else if y then q else if z then r else s) held
choose held true y z p q r s e f a d = cc
choose held false true z p q r s e f a d = cc
choose held false false true p q r s e f a d = a
choose held false false false p q r s e f a d = d

retire_limited-Accounted :
    (b : Broker) (held units : ℕ) (l : Limited)
    → units ≤ held
    → Counted b.limit b.is_closed b.signals held l
    → Accounted (retire_limited (record b { mode = limited l }) units l) (held - units)
unfolding close_waiters_locked
retire_limited-Accounted b held units l u c =
    choose (held - units) (ltb l.effective_capacity units)
      (ltb (l.effective_capacity - units) l.available) (l.effective_capacity - units == 0) _ _ _ _
      enough rest
      (close_mode-Accounted (told b units l) (held - units) (limited (fewer units l))
        (retired-Counted b.limit b.is_closed b.signals held units l u c))
      (dispatch_locked-Accounted (told b units l) (held - units)
        (retired-Counted b.limit b.is_closed b.signals held units l u c))
  where
    enough : ltb l.effective_capacity units ≡ false
    enough = ground (arith, c.total)

    rest : ltb (l.effective_capacity - units) l.available ≡ false
    rest = ground (arith, c.total)

retire_mode-Accounted :
    (b : Broker) (held units : ℕ) (mode : CapacityMode)
    → units ≤ held
    → ModeAccounted b.limit b.is_closed b.signals held mode
    → Accounted (retire_mode (record b { mode = mode }) units mode) (held - units)
retire_mode-Accounted b held units unlimited u c = tt
retire_mode-Accounted b held units (limited l) u c = retire_limited-Accounted b held units l u c.0

-- A closed broker's books need not be exact.
abandoned-Accounted :
    (limit : ℕ) (signals : Map Status) (held units : ℕ) (mode : CapacityMode)
    → ModeAccounted limit true signals held mode
    → ModeAccounted limit true signals (held - units) mode
abandoned-Accounted limit signals held units unlimited c = tt
abandoned-Accounted limit signals held units (limited l) c = (
  record {
    total = omega (arith, c.0.total);
    exact = λ k. cc;
    within = c.0.within;
    line = c.0.line;
    short = c.0.short;
    drained = c.0.drained;
  },
  λ k. cc,
)

-- Units whose permit is retired leave the capacity for good, and the books still balance.
pub retire-Accounted :
    (b : Broker) (held units : ℕ)
    → units ≤ held
    → Accounted b held
    → Accounted (retire b units) (held - units)
unfolding retire
retire-Accounted b held units u c =
    guarded (units == 0) b.is_closed refl (abandoned b.is_closed b.mode c)
  where
    abandoned :
        (shut : Bool) (mode : CapacityMode)
        → ModeAccounted b.limit shut b.signals held mode
        → shut ≡ true
        → ModeAccounted b.limit shut b.signals (held - units) mode
    abandoned true mode k e = abandoned-Accounted b.limit b.signals held units mode k
    abandoned false mode k e = cc

    guarded :
        (x y : Bool)
        → units == 0 ≡ x
        → (y ≡ true → Accounted b (held - units))
        → Accounted (if x then b else if y then b else retire_mode b units b.mode) (held - units)
    guarded true y e k = rw (same e) c
      where
        same : units == 0 ≡ true → held - units ≡ held
        same z = ground arith
    guarded false true e k = k refl
    guarded false false e k = retire_mode-Accounted b held units b.mode u c
