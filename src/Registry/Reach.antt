-- ===== src/Registry/Reach.antt =====
-- src/core/registry: the registries that the inputs of the listener lead to.
use taskvisor.Prelude.{
  ℕ, ◌≤◌, Bool, Option, none, some, ◌≡◌, refl, lookup, Within, one, tally, tally_mono, tally_key,
  ◌==◌, ◌&&◌, arith,
}
use taskvisor.Slot.{TaskId}
use taskvisor.Controller.State.{Name, OutcomeTx}
use taskvisor.Registry.State.{Entry, Registry, count_of}
use taskvisor.Registry.Background.{play}
use taskvisor.Registry.Listener.{
  Command, add, add_batch, remove, cancel, remove_by_name, cancel_by_name, handle_command, Input,
  command, completed, moved, step, boot,
}
use taskvisor.Registry.Soundness.{phase, is_removing, of_claim, any, of_id, of_name, alive, IsSound}
use taskvisor.Registry.Owning.{cleanup_completed_task-Sound}
use taskvisor.Registry.Commanding.{
  remove_task-Sound, remove_task_by_name-Sound, cancel_task-Sound, cancel_task_by_name-Sound,
}
use taskvisor.Registry.Admitting.{IsFresh}
use taskvisor.Registry.Adding.{move-Sound, spawn_and_register-Sound}
use taskvisor.Registry.Batch.{AllFresh, spawn_and_register_batch-Sound}

-- The identities that a command adds are new when the write lock is taken.
abbrev pub CommandFresh : (OutcomeTx → Bool) → Command → Registry → Type 0
CommandFresh delivers (add item moves) st = IsFresh item.id (play delivers moves st)
CommandFresh delivers (add_batch items moves) st = AllFresh items (play delivers moves st)
CommandFresh delivers (remove id) st = Unit
CommandFresh delivers (cancel id) st = Unit
CommandFresh delivers (remove_by_name name) st = Unit
CommandFresh delivers (cancel_by_name name) st = Unit

abbrev pub InputFresh : (OutcomeTx → Bool) → Input → Registry → Type 0
InputFresh delivers (command c) st = CommandFresh delivers c st
InputFresh delivers (completed id ready) st = Unit
InputFresh delivers (moved next) st = Unit

-- The registries of the runs from an empty one.
pub data Reach (delivers : OutcomeTx → Bool) (limit : Option ℕ) : Registry → Type 0 where
  booted : Reach delivers limit (boot limit)
  stepped :
      (input : Input) (st : Registry)
      → Reach delivers limit st
      → InputFresh delivers input st
      → Reach delivers limit (step delivers input st)

boot-Sound : (limit : Option ℕ) → IsSound (boot limit)
unfolding tally lookup
boot-Sound limit = (
  record {
    unique = tt;
    unique_names = tt;
    named = λ id e h. ground arith;
    known = λ n id h. ground arith;
  },
  record {
    unique_counts = tt;
    owners = λ q. refl;
    pending = λ id. refl;
    positive = λ id n h. ground arith;
  },
  record { one_name = λ n. omega arith; one_task = λ id. omega arith },
  elim limit as (λ l. Within l 0) [ none ↦ tt | some n ↦ omega arith ],
  record { keys = λ q. refl; once = λ id. omega arith; active_length = refl },
)

handle_command-Sound :
    (delivers : OutcomeTx → Bool) (c : Command) (st : Registry)
    → IsSound st
    → CommandFresh delivers c st
    → IsSound (handle_command delivers c st).1
unfolding handle_command
handle_command-Sound delivers (add item moves) st m f =
    spawn_and_register-Sound delivers item moves st m f
handle_command-Sound delivers (add_batch items moves) st m f =
    spawn_and_register_batch-Sound delivers items moves st m f
handle_command-Sound delivers (remove id) st m f = remove_task-Sound id st m
handle_command-Sound delivers (cancel id) st m f = cancel_task-Sound id st m
handle_command-Sound delivers (remove_by_name name) st m f = remove_task_by_name-Sound name st m
handle_command-Sound delivers (cancel_by_name name) st m f = cancel_task_by_name-Sound name st m

-- Every input keeps a sound registry sound, where the identities that a command adds are new to the
-- registry and the reaper, and different from each other, when its write lock is taken: the two
-- indexes stay inverse, every removing entry has one owner, no name and no task has two attempts,
-- the attempts stay within the limit, and the maps of the reaper correspond.
pub step-IsSound :
    (delivers : OutcomeTx → Bool) (input : Input) (st : Registry)
    → IsSound st
    → InputFresh delivers input st
    → IsSound (step delivers input st)
unfolding step
step-IsSound delivers (command c) st m f = handle_command-Sound delivers c st m f
step-IsSound delivers (completed id ready) st m f =
    cleanup_completed_task-Sound delivers ready id st m
step-IsSound delivers (moved next) st m f = move-Sound delivers next st m

pub Reach-IsSound :
    (delivers : OutcomeTx → Bool) (limit : Option ℕ) (st : Registry)
    → Reach delivers limit st
    → IsSound st
Reach-IsSound delivers limit _ booted = boot-Sound limit
Reach-IsSound delivers limit _ (stepped input st r f) =
    step-IsSound delivers input st (Reach-IsSound delivers limit st r) f

-- In every registry that inputs with new identities lead to from an empty one, at most one attempt
-- of a name may still run, those that were force-aborted included, and all attempts together stay
-- within the registration limit.
pub Reach_one_attempt :
    (delivers : OutcomeTx → Bool) (limit : Option ℕ) (st : Registry) (name : Name)
    → Reach delivers limit st
    → (alive (of_name name) st.tasks st.joins st.reaper.records ≤ 1)
      × Within st.max_registered_tasks (alive any st.tasks st.joins st.reaper.records)
Reach_one_attempt delivers limit st name r =
    let m = Reach-IsSound delivers limit st r in (m.2.one_name name, m.3)

-- In every registry that inputs with new identities lead to from an empty one, an entry that is
-- being removed has exactly one owner, and the barrier of pending joins counts one for it; a
-- registered entry has none, and the barrier counts none.
pub Reach_one_owner :
    (delivers : OutcomeTx → Bool) (limit : Option ℕ) (st : Registry) (id : TaskId) (entry : Entry)
    → Reach delivers limit st
    → lookup id st.tasks ≡ some entry
    → (tally (of_claim (of_id id)) st.joins ≡ one (phase entry.state))
      × (count_of (lookup id st.pending.counts) ≡ one (phase entry.state))
Reach_one_owner delivers limit st id entry r here =
    let m = Reach-IsSound delivers limit st r in
    let f : ℕ × Entry → Bool = λ x. phase x.1.state in
    let at_id = tally_key f id entry st.tasks m.0.unique here in
    let up =
      tally_mono (is_removing (of_id id)) (λ x. x.0 == id && f x) st.tasks (λ x. ground arith) in
    let down =
      tally_mono (λ x. x.0 == id && f x) (is_removing (of_id id)) st.tasks (λ x. ground arith) in
    omega (arith, at_id, up, down, m.1.owners (of_id id), m.1.pending id)
