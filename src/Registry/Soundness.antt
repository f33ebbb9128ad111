-- ===== src/Registry/Soundness.antt =====
-- src/core/registry/state.rs: what holds of the registry between two locked sections.
use taskvisor.Prelude.{
  ℕ, ◌+◌, ◌≤◌, Bool, true, false, not, ◌&&◌, some, List, ◌==◌, ◌≡◌, Map, IsMap, lookup, Within,
  tally,
}
use taskvisor.Slot.{TaskId}
use taskvisor.Controller.State.{Name}
use taskvisor.Registry.Reaper.{ReaperRecord}
use taskvisor.Registry.Matching.{IsMatched}
use taskvisor.Registry.State.{EntryState, registered, removing, Entry, Claim, Registry, count_of}

-- A test on what entries, claims and records share.
abbrev pub Test : Type 0
Test = TaskId → Name → Bool

abbrev pub phase : EntryState → Bool
phase (registered handle) = false
phase (removing latch) = true

abbrev pub of_entry : Test → ℕ × Entry → Bool
of_entry q entry = q entry.0 entry.1.name

abbrev pub is_registered : Test → ℕ × Entry → Bool
is_registered q entry = not (phase entry.1.state) && q entry.0 entry.1.name

abbrev pub is_removing : Test → ℕ × Entry → Bool
is_removing q entry = phase entry.1.state && q entry.0 entry.1.name

abbrev pub of_claim : Test → Claim → Bool
of_claim q c = q c.id c.name

abbrev pub unaborted : Test → Claim → Bool
unaborted q c = not c.aborted && q c.id c.name

abbrev pub orphan : Test → ReaperRecord → Bool
orphan q x = q x.id x.name

abbrev pub any : Test
any id name = true

abbrev pub of_id : TaskId → Test
of_id asked id name = id == asked

abbrev pub of_name : Name → Test
of_name asked id name = name == asked

-- The attempts that may still run: of registered entries, of claims that nobody aborted, and of
-- records of the reaper.
abbrev pub alive : Test → Map Entry → List Claim → List ReaperRecord → ℕ
alive q tasks joins records =
    tally (is_registered q) tasks + tally (unaborted q) joins + tally (orphan q) records

-- The indexes are inverse to each other.
pub record IsIndexed (tasks : Map Entry) (by_name : Map TaskId) : Type 0 where
  pub unique : IsMap tasks
  pub unique_names : IsMap by_name
  pub named : (id : TaskId) (e : Entry) → lookup id tasks ≡ some e → lookup e.name by_name ≡ some id
  pub known :
      (name : Name) (id : TaskId)
      → lookup name by_name ≡ some id
      → (e : Entry) × (lookup id tasks ≡ some e) × (e.name ≡ name)

-- Every removing entry has exactly one owner, which is what `PendingJoins` counts.
pub record IsOwned (tasks : Map Entry) (joins : List Claim) (counts : Map ℕ) : Type 0 where
  pub unique_counts : IsMap counts
  pub owners : (q : Test) → tally (of_claim q) joins ≡ tally (is_removing q) tasks
  pub pending : (id : TaskId) → count_of (lookup id counts) ≡ tally (of_claim (of_id id)) joins
  pub positive : (id : TaskId) (n : ℕ) → lookup id counts ≡ some n → 1 ≤ n

-- No two attempts for a name or for a task.
pub record IsExclusive (tasks : Map Entry) (joins : List Claim) (records : List ReaperRecord)
    : Type 0 where
  pub one_name : (name : Name) → alive (of_name name) tasks joins records ≤ 1
  pub one_task : (id : TaskId) → alive (of_id id) tasks joins records ≤ 1

-- With `joins` in place of the registry's own list.
abbrev pub SoundWith : List Claim → Registry → Type 0
SoundWith joins st =
    IsIndexed st.tasks st.by_name
    × IsOwned st.tasks joins st.pending.counts
    × IsExclusive st.tasks joins st.reaper.records
    × Within st.max_registered_tasks (alive any st.tasks joins st.reaper.records)
    × IsMatched st.reaper

abbrev pub IsSound : Registry → Type 0
IsSound st = SoundWith st.joins st
