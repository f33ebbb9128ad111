-- ===== src/Capacity/Dispatch.antt =====
-- What granting, closing and queueing requests does to the signals of
-- src/core/deferred_drop/capacity.rs.
use taskvisor.Prelude.{
  ℕ, zero, suc, ◌+◌, ◌≤◌, ◌≡◌, refl, ◌⊎◌, inl, inr, false, Option, none, some, List, [], ◌∷◌, ◌++◌,
  arith, ◌==◌, length, contains, erase, Map, lookup, insert, lookup-insert,
}
use taskvisor.Capacity.{Status, waiting, granted, closed, dispatch_limited, close_signals}

abbrev pub grants : Option Status → ℕ
grants (some granted) = 1
grants _ = 0

-- Grants that no request future has observed yet.
unfoldable pub granted_count : Map Status → ℕ
granted_count [] = 0
granted_count ((k, s) ∷ m) = grants (some s) + granted_count m

pub granted_count-insert :
    (k : ℕ) (s : Status) (m : Map Status)
    → granted_count (insert k s m) + grants (lookup k m) ≡ granted_count m + grants (some s)
unfolding granted_count insert lookup
granted_count-insert k s [] = omega arith
granted_count-insert k s ((j, t) ∷ m) = ground (arith, granted_count-insert k s m)

-- The queue holds distinct requests that still wait.
abbrev pub Line : List ℕ → Map Status → Type 0
Line [] signals = Unit {0}
Line (w ∷ ws) signals =
    (lookup w signals ≡ some waiting) × (contains w ws ≡ false) × Line ws signals

pub Line-insert :
    (k : ℕ) (s : Status) (ws : List ℕ) (m : Map Status)
    → contains k ws ≡ false
    → Line ws m
    → Line ws (insert k s m)
unfolding contains
Line-insert k s [] m h l = tt
Line-insert k s (w ∷ ws) m h l = ground (arith, lookup-insert k w s m, Line-insert k s ws m)

-- Units move from `available` to unobserved grants, and none is lost.
pub dispatch_limited-total :
    (a : ℕ) (ws : List ℕ) (m : Map Status)
    → Line ws m
    → (dispatch_limited a ws m).0 + granted_count (dispatch_limited a ws m).2 ≡ a + granted_count m
unfolding dispatch_limited
dispatch_limited-total zero ws m l = refl
dispatch_limited-total (suc a) [] m l = refl
dispatch_limited-total (suc a) (w ∷ ws) m l = ground (
  arith,
  dispatch_limited-total a ws (insert w granted m) (Line-insert w granted ws m l.1 l.2),
  granted_count-insert w granted m,
)

pub dispatch_limited-Line :
    (a : ℕ) (ws : List ℕ) (m : Map Status)
    → Line ws m
    → Line (dispatch_limited a ws m).1 (dispatch_limited a ws m).2
unfolding dispatch_limited
dispatch_limited-Line zero ws m l = l
dispatch_limited-Line (suc a) [] m l = l
dispatch_limited-Line (suc a) (w ∷ ws) m l =
    dispatch_limited-Line a ws (insert w granted m) (Line-insert w granted ws m l.1 l.2)

pub dispatch_limited-length :
    (a : ℕ) (ws : List ℕ) (m : Map Status) → length (dispatch_limited a ws m).1 ≤ length ws
unfolding dispatch_limited
dispatch_limited-length zero ws m = omega arith
dispatch_limited-length (suc a) [] m = omega arith
dispatch_limited-length (suc a) (w ∷ ws) m =
    omega (arith, dispatch_limited-length a ws (insert w granted m))

-- Afterwards nobody waits while a unit is free.
pub dispatch_limited_busy :
    (a : ℕ) (ws : List ℕ) (m : Map Status)
    → ((dispatch_limited a ws m).0 ≡ 0) ⊎ ((dispatch_limited a ws m).1 ≡ [])
unfolding dispatch_limited
dispatch_limited_busy zero ws m = inl refl
dispatch_limited_busy (suc a) [] m = inr refl
dispatch_limited_busy (suc a) (w ∷ ws) m = dispatch_limited_busy a ws (insert w granted m)

pub granted_count-close_signals :
    (ws : List ℕ) (m : Map Status)
    → Line ws m
    → granted_count (close_signals ws m) ≡ granted_count m
unfolding close_signals
granted_count-close_signals [] m l = refl
granted_count-close_signals (w ∷ ws) m l = ground (
  arith,
  granted_count-close_signals ws (insert w closed m) (Line-insert w closed ws m l.1 l.2),
  granted_count-insert w closed m,
)

contains-append :
    (a k : ℕ) (ws : List ℕ)
    → contains a ws ≡ false
    → k == a ≡ false
    → contains a (ws ++ k ∷ []) ≡ false
unfolding contains
contains-append a k [] h e = ground arith
contains-append a k (w ∷ ws) h e = ground (arith, contains-append a k ws)

-- A new request goes to the end of the queue.
pub Line-append :
    (k : ℕ) (ws : List ℕ) (m : Map Status)
    → lookup k m ≡ none
    → Line ws m
    → Line (ws ++ k ∷ []) (insert k waiting m)
unfolding contains
Line-append k [] m h l = ground (arith, lookup-insert k k waiting m)
Line-append k (w ∷ ws) m h l =
    ground (arith, lookup-insert k w waiting m, contains-append w k ws, Line-append k ws m h l.2)

contains-erase : (a k : ℕ) (ws : List ℕ) → contains a ws ≡ false → contains a (erase k ws) ≡ false
unfolding contains erase
contains-erase a k [] h = h
contains-erase a k (w ∷ ws) h = ground (arith, contains-erase a k ws)

-- A request leaves the queue, and its signal changes.
pub Line-erase :
    (k : ℕ) (s : Status) (ws : List ℕ) (m : Map Status)
    → Line ws m
    → Line (erase k ws) (insert k s m)
unfolding contains erase
Line-erase k s [] m l = tt
Line-erase k s (w ∷ ws) m l = ground (
  arith,
  Line-erase k s ws m l.2,
  Line-insert k s ws m,
  lookup-insert k w s m,
  contains-erase w k ws,
)

pub length-erase : (k : ℕ) (ws : List ℕ) → length (erase k ws) ≤ length ws
unfolding erase
length-erase k [] = omega arith
length-erase k (w ∷ ws) = ground (arith, length-erase k ws)

-- A request that does not wait is not in the queue.
pub Line-contains :
    (k : ℕ) (ws : List ℕ) (m : Map Status)
    → Line ws m
    → (lookup k m ≡ some waiting → ⊥)
    → contains k ws ≡ false
unfolding contains
Line-contains k [] m l h = refl
Line-contains k (w ∷ ws) m l h = ground (arith, Line-contains k ws m l.2 h)
