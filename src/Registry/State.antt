-- ===== src/Registry/State.antt =====
-- src/core/registry/state.rs, completion.rs, protocol.rs and removal/pending.rs: what the registry
-- keeps, and what its commands carry.
--
-- A claimed `Handle` leaves the entry and is owned by the one operation that joins its actor:
-- `joins` lists those. `logical` lists the completed logical latches; `cancelled` the task tokens
-- that were cancelled; `scheduled` the actors that were started; `outcomes`, `attached` and
-- `disposed` where outcomes and rejected task values went. `activity` and `bundle` are numbers that
-- name the activity bit and the cleanup bundle of a task; the bit in an entry itself, which only
-- the queries read, is left out.
use taskvisor.Prelude.{
  ℕ, suc, ◌+◌, ◌-◌, Bool, true, false, Option, none, some, List, [], ◌∷◌, ◌++◌, ltb, leb,
  if◌then◌else◌, Map, has, lookup, insert, remove,
}
use taskvisor.Slot.{TaskId}
use taskvisor.Controller.State.{Name, OutcomeTx, RejectionKind}
use taskvisor.Registry.Reaper.{Latch, Reaper, reserves_name}

pub record Handle : Type 0 where
  pub done : Option OutcomeTx
  pub completion : Latch
  pub bundle : ℕ
  pub activity : ℕ

pub data EntryState : Type 0 where
  registered : Handle → EntryState
  removing : Latch → EntryState

pub record Entry : Type 0 where
  pub name : Name
  pub state : EntryState

-- `PendingInner`.
pub record PendingJoins : Type 0 where
  pub counts : Map ℕ
  pub names : Map Name

-- A handle whose removal is not committed; `aborted` once `ActorHandle::abort` ran.
pub record Claim : Type 0 where
  pub id : TaskId
  pub name : Name
  pub handle : Handle
  pub aborted : Bool

-- `TaskOutcome`, without texts.
pub data TaskOutcome : Type 0 where
  completed canceled force_aborted panicked : TaskOutcome
  failed fatal : (reason : ℕ) (exit_code : Option ℕ) → TaskOutcome
  rejected : RejectionKind → TaskOutcome

pub data RegistryEvent : Type 0 where
  task_added task_removed : Name → TaskId → RegistryEvent
  task_add_failed : Name → TaskId → RejectionKind → RegistryEvent
  task_finished : Name → TaskId → TaskOutcome → RegistryEvent
  remove_requested : TaskId → RegistryEvent

-- `Inner` with the other fields of `Registry` that its operations change.
pub record Registry : Type 0 where
  pub max_registered_tasks : Option ℕ
  pub tasks : Map Entry
  pub by_name : Map TaskId
  pub pending : PendingJoins
  pub reaper : Reaper
  pub joins : List Claim
  pub logical : List Latch
  pub cancelled : List TaskId
  pub scheduled : List TaskId
  pub empty_notified : ℕ
  pub outcomes : List (OutcomeTx × TaskOutcome)
  pub attached : List (ℕ × TaskOutcome)
  pub poisoned : List ℕ
  pub disposed : List ℕ
  pub events : List RegistryEvent

-- `AddBatchItem` and the fields of `RegistryCommand::Add`.
pub record AddItem : Type 0 where
  pub id : TaskId
  pub name : Name
  pub bundle : ℕ
  pub activity : ℕ
  pub done : Option OutcomeTx
  pub completion : Latch

abbrev pub publish : RegistryEvent → Registry → Registry
publish e st = record st { events = st.events ++ e ∷ [] }

-- `inc_with_name`.
abbrev pub count_of : Option ℕ → ℕ
count_of none = 0
count_of (some n) = n

unfoldable pub inc_with_name : TaskId → Name → PendingJoins → PendingJoins
inc_with_name id name p = record {
  counts = insert id (suc (count_of (lookup id p.counts))) p.counts;
  names = insert id name p.names;
}

abbrev pub dec_count : TaskId → PendingJoins → Option ℕ → PendingJoins
dec_count id p none = p
dec_count id p (some n) =
    if leb n 1
    then record { counts = remove id p.counts; names = remove id p.names }
    else record p { counts = insert id (n - 1) p.counts }

unfoldable pub dec : TaskId → PendingJoins → PendingJoins
dec id p = dec_count id p (lookup id p.counts)

-- A send on a watched channel: `delivers` says whether the receiver is still there. What is not
-- delivered is attached to the cleanup bundle.
abbrev pub sent :
    (OutcomeTx → Bool) → Option OutcomeTx → TaskOutcome → List (OutcomeTx × TaskOutcome)
sent delivers none outcome = []
sent delivers (some tx) outcome = if delivers tx then (tx, outcome) ∷ [] else []

abbrev pub undelivered :
    (OutcomeTx → Bool) → Option OutcomeTx → ℕ → TaskOutcome → List (ℕ × TaskOutcome)
undelivered delivers none bundle outcome = (bundle, outcome) ∷ []
undelivered delivers (some tx) bundle outcome = if delivers tx then [] else (bundle, outcome) ∷ []

abbrev pub send_outcome :
    (OutcomeTx → Bool) → Option OutcomeTx → ℕ → TaskOutcome → Registry → Registry
send_outcome delivers done bundle outcome st = record st {
  outcomes = st.outcomes ++ sent delivers done outcome;
  attached = st.attached ++ undelivered delivers done bundle outcome;
}

-- The registration limit counts force-aborted attempts too.
abbrev pub exceeds : Option ℕ → ℕ → Bool
exceeds none total = false
exceeds (some limit) total = ltb limit total

unfoldable pub registered_limit_exceeded : Registry → ℕ → ℕ → Bool
registered_limit_exceeded st current incoming =
    exceeds st.max_registered_tasks (current + st.reaper.active + incoming)

unfoldable pub conflicts : Registry → Name → Bool
unfolding reserves_name
conflicts st name = if has name st.by_name then true else reserves_name name st.reaper
