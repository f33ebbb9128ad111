-- ===== src/Prelude/Maps.antt =====
-- Hash maps with numbers for keys, as association lists with at most one entry for a key (`IsMap`).
use Prim.Native.Nat.{ℕ, suc}
use mathlib.Core.Path.{◌≡◌, refl}
use mathlib.Core.Bool.{Bool, false}
use mathlib.Core.Logic.{◌⊎◌}
use mathlib.Core.Option.{Option, none, some}
use mathlib.Core.List.{List, [], ◌∷◌}
use native.Mathlib.Omega.{arith}
use taskvisor.Prelude.Tests.{◌==◌, if◌then◌else◌, is_some}
use taskvisor.Prelude.Lists.{length}

abbrev pub Map {ℓ} : Type ℓ → Type ℓ
Map V = List (ℕ × V)

module _ {ℓ} {V : Type ℓ} where
  unfoldable pub lookup : ℕ → Map V → Option V
  lookup key [] = none
  lookup key ((k, v) ∷ rest) = if k == key then some v else lookup key rest

  -- `HashMap::remove`.
  unfoldable pub remove : ℕ → Map V → Map V
  remove key [] = []
  remove key ((k, old) ∷ rest) = if k == key then rest else (k, old) ∷ remove key rest

  -- `HashMap::insert`: the value of a present key is replaced.
  unfoldable pub insert : ℕ → V → Map V → Map V
  insert key new [] = (key, new) ∷ []
  insert key new ((k, old) ∷ rest) =
      if k == key then (key, new) ∷ rest else (k, old) ∷ insert key new rest

  abbrev pub has : ℕ → Map V → Bool
  has k m = is_some (lookup k m)

  -- No key has two entries.
  abbrev pub IsMap : Map V → Type ℓ
  IsMap [] = Unit
  IsMap ((k, v) ∷ m) = (lookup k m ≡ none) × IsMap m

  pub lookup-remove :
      (k j : ℕ) (m : Map V)
      → IsMap m
      → lookup j (remove k m) ≡ (if k == j then none else lookup j m)
  unfolding lookup remove
  lookup-remove k j [] h = ground arith
  lookup-remove k j ((i, w) ∷ m) h = ground (arith, lookup-remove k j m h.1)

  pub lookup-insert :
      (key asked : ℕ) (value : V) (m : Map V)
      → lookup asked (insert key value m) ≡ (if key == asked then some value else lookup asked m)
  unfolding lookup insert
  lookup-insert key asked value [] = refl
  lookup-insert key asked value (entry ∷ rest) = ground (arith, lookup-insert key asked value rest)

  pub length-insert :
      (k : ℕ) (v : V) (m : Map V)
      → length (insert k v m) ≡ (if has k m then length m else suc (length m))
  unfolding lookup insert
  length-insert k v [] = refl
  length-insert k v ((i, w) ∷ m) = ground (arith, length-insert k v m)

  pub length-remove :
      (k : ℕ) (m : Map V)
      → length m ≡ (if has k m then suc (length (remove k m)) else length (remove k m))
  unfolding lookup remove
  length-remove k [] = refl
  length-remove k ((i, w) ∷ m) = ground (arith, length-remove k m)

  pub insert-IsMap : (k : ℕ) (v : V) (m : Map V) → IsMap m → IsMap (insert k v m)
  unfolding insert lookup
  insert-IsMap k v [] h = (refl, tt)
  insert-IsMap k v ((i, w) ∷ m) h = ground (arith, insert-IsMap k v m h.1, lookup-insert k i v m)

  pub remove-IsMap : (k : ℕ) (m : Map V) → IsMap m → IsMap (remove k m)
  unfolding remove
  remove-IsMap k [] h = tt
  remove-IsMap k ((i, w) ∷ m) h = ground (arith, remove-IsMap k m h.1, lookup-remove k i m h.1)

  pub remove-insert : (k : ℕ) (v : V) (m : Map V) → lookup k m ≡ none → remove k (insert k v m) ≡ m
  unfolding lookup insert remove
  remove-insert k v [] h = ground arith
  remove-insert k v ((i, w) ∷ m) h = ground (arith, remove-insert k v m)

  pub lookup-insert_self : (k : ℕ) (v : V) (m : Map V) → lookup k (insert k v m) ≡ some v
  lookup-insert_self k v m = ground (arith, lookup-insert k k v m)

  -- What a key maps to after one change, by whether it is the changed one.
  pub insert_at :
      (k j : ℕ) (v : V) (m : Map V)
      → ((k ≡ j) × (lookup j (insert k v m) ≡ some v))
        ⊎ (((k == j) ≡ false) × (lookup j (insert k v m) ≡ lookup j m))
  insert_at k j v m = ground (arith, lookup-insert k j v m)

  pub remove_at :
      (k j : ℕ) (m : Map V)
      → IsMap m
      → ((k ≡ j) × (lookup j (remove k m) ≡ none))
        ⊎ (((k == j) ≡ false) × (lookup j (remove k m) ≡ lookup j m))
  remove_at k j m u = ground (arith, lookup-remove k j m u)
