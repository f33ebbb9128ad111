-- ===== src/Prelude/Tally.antt =====
-- How many items pass a test, and what the list and map operations do to that number.
use Prim.Native.Nat.{ℕ, ◌+◌, ◌≤◌}
use mathlib.Core.Path.{◌≡◌, refl, ap}
use mathlib.Core.Bool.{Bool, true, false, ◌&&◌}
use mathlib.Core.Logic.{inl, inr}
use mathlib.Core.Option.{none, some}
use mathlib.Core.List.{List, [], ◌∷◌, ◌++◌}
use native.Mathlib.Omega.{arith}
use taskvisor.Prelude.Tests.{◌==◌, if◌then◌else◌, Bool-cases}
use taskvisor.Prelude.Lists.{length}
use taskvisor.Prelude.Maps.{Map, lookup, remove, insert, IsMap}

abbrev pub one : Bool → ℕ
one true = 1
one false = 0

module _ {ℓ} {A : Type ℓ} where
  unfoldable pub tally : (A → Bool) → List A → ℕ
  tally test [] = 0
  tally test (a ∷ more) = one (test a) + tally test more

  pub tally-append :
      (test : A → Bool) (xs ys : List A) → tally test (xs ++ ys) ≡ tally test xs + tally test ys
  unfolding tally
  tally-append test [] ys = omega arith
  tally-append test (a ∷ more) ys = omega (arith, tally-append test more ys)

  -- An item at the end.
  pub tally-snoc :
      (test : A → Bool) (xs : List A) (a : A)
      → tally test (xs ++ a ∷ []) ≡ tally test xs + one (test a)
  unfolding tally
  tally-snoc test xs a = omega (arith, tally-append test xs (a ∷ []))

  pub tally-length : (xs : List A) → tally (λ a. true) xs ≡ length xs
  unfolding tally
  tally-length [] = refl
  tally-length (a ∷ more) = omega (arith, tally-length more)

  pub tally_mono :
      (weak strong : A → Bool) (xs : List A)
      → ((a : A) → one (strong a) ≤ one (weak a))
      → tally strong xs ≤ tally weak xs
  unfolding tally
  tally_mono weak strong [] h = omega arith
  tally_mono weak strong (a ∷ more) h = omega (arith, h a, tally_mono weak strong more h)

module _ {ℓ} {V : Type ℓ} (test : ℕ × V → Bool) where
  pub tally-insert_new :
      (k : ℕ) (v : V) (m : Map V)
      → lookup k m ≡ none
      → tally test (insert k v m) ≡ tally test m + one (test (k, v))
  unfolding tally lookup insert
  tally-insert_new k v [] h = omega arith
  tally-insert_new k v ((i, w) ∷ m) h = ground (arith, tally-insert_new k v m)

  pub tally-insert_old :
      (k : ℕ) (v old : V) (m : Map V)
      → lookup k m ≡ some old
      → tally test (insert k v m) + one (test (k, old)) ≡ tally test m + one (test (k, v))
  unfolding tally lookup insert
  tally-insert_old k v old [] h = ground arith
  tally-insert_old k v old ((i, w) ∷ m) h = ground (arith, tally-insert_old k v old m)

  pub tally-remove :
      (k : ℕ) (old : V) (m : Map V)
      → lookup k m ≡ some old
      → tally test (remove k m) + one (test (k, old)) ≡ tally test m
  unfolding tally lookup remove
  tally-remove k old [] h = ground arith
  tally-remove k old ((i, w) ∷ m) h = ground (arith, tally-remove k old m)

  -- A key has at most its own entry.
  abbrev at_key : ℕ → ℕ × V → Bool
  at_key k entry = entry.0 == k && test entry

  tally_absent : (k : ℕ) (m : Map V) → lookup k m ≡ none → tally (at_key k) m ≡ 0
  unfolding tally lookup
  tally_absent k [] h = refl
  tally_absent k ((i, w) ∷ m) h = ground (arith, tally_absent k m)

  pub tally_key :
      (k : ℕ) (v : V) (m : Map V)
      → IsMap m
      → lookup k m ≡ some v
      → tally (λ entry. entry.0 == k && test entry) m ≡ one (test (k, v))
  unfolding tally lookup
  tally_key k v [] h e = ground arith
  tally_key k v ((i, w) ∷ m) h e = ground (arith, tally_key k v m h.1, tally_absent k m)

  pub tally_no_key :
      (k : ℕ) (m : Map V) → lookup k m ≡ none → tally (λ entry. entry.0 == k && test entry) m ≡ 0
  tally_no_key k m h = tally_absent k m h

  -- What fails at every key fails everywhere.
  pub tally_none :
      (m : Map V)
      → IsMap m
      → ((k : ℕ) (v : V) → lookup k m ≡ some v → test (k, v) ≡ false)
      → tally test m ≡ 0
  unfolding tally lookup
  tally_none [] u h = refl
  tally_none ((i, w) ∷ m) u h = omega (
    arith,
    ap one (h i w (ground arith)),
    tally_none m u.1 (λ k v there. h k v (deeper k v there)),
  )
    where
      deeper :
          (k : ℕ) (v : V) → lookup k m ≡ some v → (if i == k then some w else lookup k m) ≡ some v
      deeper k v there = elim (Bool-cases (i == k)) [
        | inl same ↦
            (let back : i ≡ k = ground arith in
              ground (arith, u.0, there, ap (λ j. lookup j m) back))
        | inr other ↦ ground (arith, other, there)
      ]
