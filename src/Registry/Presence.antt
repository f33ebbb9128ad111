-- ===== src/Registry/Presence.antt =====
-- src/core/registry/state.rs: counting the attempts of a name, of a task and of all.
use taskvisor.Prelude.{
  ℕ, ◌+◌, ◌≤◌, false, none, List, [], ◌∷◌, ◌==◌, ◌≡◌, refl, ap, inl, inr, Map, lookup, tally,
  tally_none, tally_mono, Bool-cases, arith,
}
use taskvisor.Slot.{TaskId}
use taskvisor.Controller.State.{Name}
use taskvisor.Registry.Reaper.{Reaper, ReaperActivity, ReaperRecord, reserves, reserves_name}
use taskvisor.Registry.Matching.{IsMatched}
use taskvisor.Registry.State.{Entry, Claim}
use taskvisor.Registry.Soundness.{
  Test, phase, of_entry, is_registered, is_removing, of_claim, unaborted, orphan, of_name, alive,
  IsIndexed, IsOwned,
}

-- A name outside the index names no entry.
pub names_absent :
    (name : Name) (by_name : Map TaskId) (tasks : Map Entry)
    → IsIndexed tasks by_name
    → lookup name by_name ≡ none
    → tally (of_entry (of_name name)) tasks ≡ 0
names_absent name by_name tasks m h =
    tally_none (of_entry (of_name name)) tasks m.unique (λ id e here.
      elim (Bool-cases (e.name == name)) [
        | inl same ↦
            (let back : e.name ≡ name = ground arith in
              ground (arith, m.named id e here, h, ap (λ n. lookup n by_name) back))
        | inr other ↦ other
      ])

reserves-tally :
    (name : Name) (list : List ReaperActivity)
    → reserves name list ≡ false
    → tally (λ a. a.name == name) list ≡ 0
unfolding tally reserves
reserves-tally name [] h = refl
reserves-tally name (a ∷ list) h = ground (arith, reserves-tally name list)

pub orphans_unreserved :
    (name : Name) (r : Reaper)
    → IsMatched r
    → reserves_name name r ≡ false
    → tally (orphan (of_name name)) r.records ≡ 0
unfolding reserves_name
orphans_unreserved name r m h =
    let reserved = reserves-tally name r.by_name h in
    let same = m.keys (λ id n latch. n == name) in omega (arith, reserved, same)

pub tally-phases :
    (q : Test) (tasks : Map Entry)
    → tally (is_registered q) tasks + tally (is_removing q) tasks ≡ tally (of_entry q) tasks
unfolding tally
tally-phases q [] = omega arith
tally-phases q ((i, e) ∷ tasks) = elim (Bool-cases (phase e.state)) [
  | inl h ↦ ground (arith, h, tally-phases q tasks)
  | inr h ↦ ground (arith, h, tally-phases q tasks)
]

-- The attempts of registered and claimed tasks, by the entries.
pub alive_entries :
    (q : Test) (tasks : Map Entry) (joins : List Claim) (counts : Map ℕ)
    (records : List ReaperRecord)
    → IsOwned tasks joins counts
    → alive q tasks joins records ≤ tally (of_entry q) tasks + tally (orphan q) records
alive_entries q tasks joins counts records m = omega (
  arith,
  tally-phases q tasks,
  m.owners q,
  tally_mono (of_claim q) (unaborted q) joins (λ c. ground arith),
)
