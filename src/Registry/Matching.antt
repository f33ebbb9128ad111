-- ===== src/Registry/Matching.antt =====
-- src/core/registry/scheduler/reaper.rs: how the two maps of the reaper correspond.
use taskvisor.Prelude.{
  ℕ, suc, ◌+◌, ◌-◌, ◌≤◌, Bool, true, ◌&&◌, some, List, [], ◌∷◌, ◌==◌, ◌≡◌, refl, ap, sym, ◌∙◌, inl,
  inr, if◌then◌else◌, length, one, tally, tally_mono, Bool-cases, arith,
}
use taskvisor.Slot.{TaskId}
use taskvisor.Controller.State.{Name}
use taskvisor.Registry.Reaper.{
  Latch, ReaperActivity, ReaperRecord, Reaper, first, replace_first, remove_first, is_owned_by,
  retain, belongs,
}

-- A test on the key that an activity and a record share.
abbrev pub KeyTest : Type 0
KeyTest = TaskId → Name → Latch → Bool

abbrev pub of_activity : KeyTest → ReaperActivity → Bool
of_activity q a = q a.id a.name a.release

abbrev pub of_record : KeyTest → ReaperRecord → Bool
of_record q x = q x.id x.name x.release

-- The same keys in both maps, one record for a task, and the right number of active attempts.
pub record Correspond (by_name : List ReaperActivity) (records : List ReaperRecord) (active : ℕ)
    : Type 0 where
  pub keys : (q : KeyTest) → tally (of_activity q) by_name ≡ tally (of_record q) records
  pub once : (id : TaskId) → tally (belongs id) records ≤ 1
  pub active_length : active ≡ length records

abbrev pub IsMatched : Reaper → Type 0
IsMatched r = Correspond r.by_name r.records r.active

abbrev pub SameKey : ReaperRecord → ReaperRecord → Type 0
SameKey x y = (x.id ≡ y.id) × (x.name ≡ y.name) × (x.release ≡ y.release)

module _ (f : ReaperRecord → Bool) where
  pub tally-remove_first :
      (p : ReaperRecord → Bool) (x : ReaperRecord) (xs : List ReaperRecord)
      → first p xs ≡ some x
      → tally f (remove_first p xs) + one (f x) ≡ tally f xs
  unfolding tally first remove_first
  tally-remove_first p x [] h = ground arith
  tally-remove_first p x (y ∷ xs) h = ground (arith, tally-remove_first p x xs)

  pub tally-replace_first :
      (p : ReaperRecord → Bool) (x y : ReaperRecord) (xs : List ReaperRecord)
      → first p xs ≡ some x
      → f y ≡ f x
      → tally f (replace_first p y xs) ≡ tally f xs
  unfolding tally first replace_first
  tally-replace_first p x y [] h e = ground arith
  tally-replace_first p x y (z ∷ xs) h e = ground (arith, tally-replace_first p x y xs)

length-remove_first :
    (p : ReaperRecord → Bool) (x : ReaperRecord) (xs : List ReaperRecord)
    → first p xs ≡ some x
    → suc (length (remove_first p xs)) ≡ length xs
unfolding first remove_first
length-remove_first p x [] h = ground arith
length-remove_first p x (y ∷ xs) h = ground (arith, length-remove_first p x xs)

length-replace_first :
    (p : ReaperRecord → Bool) (y : ReaperRecord) (xs : List ReaperRecord)
    → length (replace_first p y xs) ≡ length xs
unfolding replace_first
length-replace_first p y [] = refl
length-replace_first p y (z ∷ xs) = ground (arith, length-replace_first p y xs)

is_owned_by_key :
    (x : ReaperRecord) (a : ReaperActivity)
    → is_owned_by x a ≡ true
    → (a.id ≡ x.id) × (a.name ≡ x.name) × (a.release ≡ x.release)
is_owned_by_key x a h = ground arith

of_activity_owned :
    (q : KeyTest) (x : ReaperRecord) (a : ReaperActivity)
    → is_owned_by x a ≡ true
    → of_activity q a ≡ of_record q x
of_activity_owned q x a h = let e = is_owned_by_key x a h in cc

tally-retain :
    (q : KeyTest) (x : ReaperRecord) (list : List ReaperActivity)
    → tally (of_activity q) (retain x list)
        + (if of_record q x then tally (is_owned_by x) list else 0)
      ≡ tally (of_activity q) list
unfolding tally retain
tally-retain q x [] = ground arith
tally-retain q x (a ∷ list) = elim (Bool-cases (is_owned_by x a)) [
  | inl h ↦ ground (arith, tally-retain q x list, of_activity_owned q x a h)
  | inr h ↦ ground (arith, tally-retain q x list)
]

-- A record that is found is counted.
tally-first :
    (f p : ReaperRecord → Bool) (x : ReaperRecord) (xs : List ReaperRecord)
    → first p xs ≡ some x
    → one (f x) ≤ tally f xs
tally-first f p x xs h = omega (arith, tally-remove_first f p x xs h)

pub of_record_same :
    (q : KeyTest) (x y : ReaperRecord) → SameKey y x → of_record q y ≡ of_record q x
of_record_same q x y k =
    ap (λ i. q i y.name y.release) k.0
    ∙ ap (λ n. q x.id n y.release) k.1
    ∙ ap (λ l. q x.id x.name l) k.2

-- The activity of a found record stands in `by_name` exactly once.
owned_once :
    (r : Reaper) (p : ReaperRecord → Bool) (x y : ReaperRecord)
    → IsMatched r
    → first p r.records ≡ some x
    → SameKey y x
    → tally (is_owned_by y) r.by_name ≡ 1
owned_once r p x y m h k =
    let q : KeyTest = λ id name release. name == y.name && (id == y.id && release == y.release) in
    let low = tally-first (of_record q) p x r.records h in
    let self : of_record q x ≡ true = ground arith in
    let high = tally_mono (belongs y.id) (of_record q) r.records (λ z. ground arith) in
    ground (arith, low, high, m.keys q, m.once y.id, self)

-- Replacing a found record by one of the same key.
pub replace-IsMatched :
    (r : Reaper) (p : ReaperRecord → Bool) (x y : ReaperRecord)
    → IsMatched r
    → first p r.records ≡ some x
    → SameKey y x
    → Correspond r.by_name (replace_first p y r.records) r.active
replace-IsMatched r p x y m h k = record {
  keys = λ q.
      m.keys q ∙ sym (tally-replace_first (of_record q) p x y r.records h (of_record_same q x y k));
  once = λ id. omega (
    arith,
    m.once id,
    tally-replace_first (belongs id) p x y r.records h (ap (λ i. i == id) k.0),
  );
  active_length = omega (arith, m.active_length, length-replace_first p y r.records);
}

-- Taking a found record out of both maps; `active` is the old number.
pub remove-IsMatched :
    (r : Reaper) (p : ReaperRecord → Bool) (x y : ReaperRecord)
    → IsMatched r
    → first p r.records ≡ some x
    → SameKey y x
    → Correspond (retain y r.by_name) (remove_first p r.records) (r.active - 1)
remove-IsMatched r p x y m h k = record {
  keys = λ q.
      let e = of_record_same q x y k in
      ground (
        arith,
        m.keys q,
        tally-retain q y r.by_name,
        owned_once r p x y m h k,
        tally-remove_first (of_record q) p x r.records h,
      );
  once = λ id. omega (arith, m.once id, tally-remove_first (belongs id) p x r.records h);
  active_length = omega (arith, m.active_length, length-remove_first p x r.records h);
}
