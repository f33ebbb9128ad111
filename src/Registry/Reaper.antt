-- ===== src/Registry/Reaper.antt =====
-- src/core/registry/scheduler/reaper.rs: attempts that outlive their logical removal. The two hash
-- maps of vectors are one list each, with the key in the entry: a vector is the sublist of its key,
-- and an empty vector leaves no key. A `RemovalCompletion` is a number that its clones share, and
-- `released` lists the physical latches that were completed; `submitted` what went to deferred
-- cleanup; `forgotten` the outputs that are retained for good. The mutex makes each operation
-- atomic; the coordinator that polls the joins is the scheduler's.
use taskvisor.Prelude.{
  ℕ, ◌+◌, ◌-◌, Bool, true, false, not, ◌&&◌, ◌||◌, Option, none, some, List, [], ◌∷◌, ◌++◌, ◌==◌,
  if◌then◌else◌, is_some,
}
use taskvisor.Slot.{TaskId}
use taskvisor.Controller.State.{Name}

abbrev pub Latch : Type 0
Latch = ℕ

-- `activity` names the shared activity bit.
pub record ReaperActivity : Type 0 where
  pub name : Name
  pub id : TaskId
  pub release : Latch
  pub activity : ℕ

pub record TerminalReleases : Type 0 where
  pub state : Option Latch
  pub report : Latch

pub record ReaperRecord : Type 0 where
  pub id : TaskId
  pub name : Name
  pub physical : Option ℕ
  pub terminal : Option ℕ
  pub release : Latch
  pub terminal_releases : Option TerminalReleases
  pub duplicate_releases : Option TerminalReleases
  pub poisoned : Bool

-- A bundle that was sent to deferred cleanup, with the actor output that it owns.
pub record Submitted : Type 0 where
  pub bundle : ℕ
  pub physical : Option ℕ
  pub poisoned : Bool

pub record Reaper : Type 0 where
  pub active : ℕ
  pub by_name : List ReaperActivity
  pub records : List ReaperRecord
  pub submitted : List Submitted
  pub released : List Latch
  pub forgotten : List ℕ

abbrev pub new : Reaper
new = record {
  active = 0;
  by_name = [];
  records = [];
  submitted = [];
  released = [];
  forgotten = [];
}

-- The latches that a set completes, in order.
abbrev pub latches : TerminalReleases → List Latch
latches r = elim r.state [ none ↦ r.report ∷ [] | some s ↦ s ∷ r.report ∷ [] ]

abbrev pub duplicate_latches : Option TerminalReleases → List Latch
duplicate_latches none = []
duplicate_latches (some r) = latches r

abbrev pub shares_latch : TerminalReleases → Latch → Bool
shares_latch r release = elim r.state [ none ↦ true | some s ↦ s == release ] && r.report == release

-- The record of an attempt that has neither exited nor met its terminal bundle.
abbrev pub new_record : TaskId → Name → Latch → ReaperRecord
new_record id name release = record {
  id = id;
  name = name;
  physical = none;
  terminal = none;
  release = release;
  terminal_releases = none;
  duplicate_releases = none;
  poisoned = false;
}

unfoldable pub register : TaskId → Name → ℕ → Latch → Reaper → Reaper
register id name activity release r = record r {
  active = r.active + 1;
  by_name =
      r.by_name ++ record { name = name; id = id; release = release; activity = activity } ∷ [];
  records = r.records ++ new_record id name release ∷ [];
}

-- `position` and the access by its index, in one.
unfoldable pub first : (ReaperRecord → Bool) → List ReaperRecord → Option ReaperRecord
first p [] = none
first p (x ∷ xs) = if p x then some x else first p xs

unfoldable pub replace_first :
    (ReaperRecord → Bool) → ReaperRecord → List ReaperRecord → List ReaperRecord
replace_first p y [] = []
replace_first p y (x ∷ xs) = if p x then y ∷ xs else x ∷ replace_first p y xs

unfoldable pub remove_first : (ReaperRecord → Bool) → List ReaperRecord → List ReaperRecord
remove_first p [] = []
remove_first p (x ∷ xs) = if p x then xs else x ∷ remove_first p xs

-- The `retain` of `take_ready_record`, on the vector of the record's name.
abbrev pub is_owned_by : ReaperRecord → ReaperActivity → Bool
is_owned_by x a = a.name == x.name && (a.id == x.id && a.release == x.release)

unfoldable pub retain : ReaperRecord → List ReaperActivity → List ReaperActivity
retain x [] = []
retain x (a ∷ rest) = if is_owned_by x a then retain x rest else a ∷ retain x rest

abbrev pub is_ready : ReaperRecord → Bool
is_ready x = is_some x.physical && (is_some x.terminal && is_some x.terminal_releases)

-- The record at the index that `p` finds, after an update, and `take_ready_record`.
unfoldable pub take_ready_record :
    (ReaperRecord → Bool) → ReaperRecord → Reaper → Reaper × Option ReaperRecord
unfolding replace_first remove_first retain
take_ready_record p x r =
    if is_ready x
    then (record r { records = remove_first p r.records; by_name = retain x r.by_name }, some x)
    else (record r { records = replace_first p x r.records }, none)

abbrev pub hand_over :
    Option ℕ → Option ℕ → Option TerminalReleases → ReaperRecord → Reaper → Reaper
hand_over (some bundle) (some output) (some releases) x r = record r {
  submitted =
      r.submitted ++ record { bundle = bundle; physical = some output; poisoned = x.poisoned } ∷ [];
  active = r.active - 1;
  released =
      r.released ++ (x.release ∷ []) ++ latches releases ++ duplicate_latches x.duplicate_releases;
}
hand_over _ _ _ x r = r

unfoldable pub submit_ready : Reaper × Option ReaperRecord → Reaper
submit_ready (r, none) = r
submit_ready (r, some x) = hand_over x.terminal x.physical x.terminal_releases x r

abbrev pub joins : TaskId → Latch → ReaperRecord → Bool
joins id release x = x.id == id && x.release == release

abbrev pub with_output : ℕ → Bool → ReaperRecord → ReaperRecord
with_output output poisoned x = record x {
  physical = some output;
  poisoned = x.poisoned || poisoned;
}

abbrev pub complete_record :
    TaskId → Latch → ℕ → Bool → Reaper → Option ReaperRecord → Reaper × Option ReaperRecord
complete_record id release output poisoned r none =
    (record r { forgotten = r.forgotten ++ output ∷ [] }, none)
complete_record id release output poisoned r (some x) =
    if is_some x.physical
    then take_ready_record (joins id release) (record x { poisoned = true })
        (record r { forgotten = r.forgotten ++ output ∷ [] })
    else take_ready_record (joins id release) (with_output output poisoned x) r

-- `complete_physical`, with the `submit_ready` that follows it.
unfoldable pub complete_physical : TaskId → Latch → ℕ → Bool → Reaper → Reaper
unfolding first take_ready_record submit_ready
complete_physical id release output poisoned r =
    submit_ready (complete_record id release output poisoned r (first (joins id release) r.records))

-- The index that `attach_terminal` chooses: a record of the latch, else one without terminal, else
-- the first of the task.
abbrev pub matches : TaskId → TerminalReleases → ReaperRecord → Bool
matches id releases x = x.id == id && shares_latch releases x.release

abbrev pub lacks_terminal : TaskId → ReaperRecord → Bool
lacks_terminal id x = x.id == id && not (is_some x.terminal)

abbrev pub belongs : TaskId → ReaperRecord → Bool
belongs id x = x.id == id

unfoldable pub choose : TaskId → TerminalReleases → List ReaperRecord → ReaperRecord → Bool
unfolding first
choose id releases xs =
    if is_some (first (matches id releases) xs)
    then matches id releases
    else if is_some (first (lacks_terminal id) xs)
    then lacks_terminal id
    else belongs id

abbrev pub submit_alone : ℕ → Reaper → Reaper
submit_alone bundle r = record r {
  submitted = r.submitted ++ record { bundle = bundle; physical = none; poisoned = false } ∷ [];
}

abbrev pub complete : TerminalReleases → Reaper → Reaper
complete releases r = record r { released = r.released ++ latches releases }

abbrev pub duplicate : (ReaperRecord → Bool) → TerminalReleases → ReaperRecord → Reaper → Reaper
duplicate p releases x r =
    if shares_latch releases x.release
    then r
    else if is_some x.duplicate_releases
    then complete releases
        (record r { records = replace_first p (record x { poisoned = true }) r.records })
    else record r {
      records = replace_first p (record x { duplicate_releases = some releases }) r.records;
    }

abbrev pub attach_record :
    (ReaperRecord → Bool) → ℕ → TerminalReleases → Reaper → Option ReaperRecord → Reaper
attach_record p bundle releases r none = complete releases (submit_alone bundle r)
attach_record p bundle releases r (some x) =
    if is_some x.terminal
    then duplicate p releases x (submit_alone bundle r)
    else submit_ready (
        take_ready_record p (record x { terminal = some bundle; terminal_releases = some releases })
          r)

unfoldable pub attach_terminal : TaskId → ℕ → Option Latch → Latch → Reaper → Reaper
unfolding choose first take_ready_record submit_ready replace_first
attach_terminal id bundle state_release report_release r =
    let releases : TerminalReleases = record { state = state_release; report = report_release } in
    let p = choose id releases r.records in attach_record p bundle releases r (first p r.records)

unfoldable pub reserves : Name → List ReaperActivity → Bool
reserves name [] = false
reserves name (a ∷ rest) = a.name == name || reserves name rest

unfoldable pub reserves_name : Name → Reaper → Bool
unfolding reserves
reserves_name name r = reserves name r.by_name

-- `is_alive`, where `bits` reads the shared activity bits.
unfoldable pub any_active : (ℕ → Bool) → Name → List ReaperActivity → Bool
any_active bits name [] = false
any_active bits name (a ∷ rest) = (a.name == name && bits a.activity) || any_active bits name rest

unfoldable pub is_alive : (ℕ → Bool) → Name → Reaper → Bool
unfolding any_active
is_alive bits name r = any_active bits name r.by_name
