-- ===== src/Controller/Submission.antt =====
-- src/controller/engine/admission/watcher.rs and submission.rs: one ordered submission, from the
-- guard that owns its task and outcome channel to slot placement.
use taskvisor.Prelude.{
  ℕ, Bool, true, false, Option, none, some, List, [], ◌∷◌, ◌++◌, if◌then◌else◌, length, insert,
  lookup,
}
use taskvisor.Slot.{TaskId, PendingSubmission, SlotState, is_idle}
use taskvisor.Controller.State.{
  Name, OutcomeTx, State, Runtime, RejectionKind, admission_failed, controller_shutting_down,
  resource_limit, queue_full, slot_busy, publish, controller_rejected, send_rejected,
  finalize_rejected, dispose, store, gc_if_idle,
}
use taskvisor.Controller.Queue
use taskvisor.Controller.Queue.{try_get_or_create_slot}
use taskvisor.Controller.Placement.{
  AdmissionPolicy, drop_if_running, replace, queue, Placement, accepted, rejected, handoff_failed,
  apply,
}

-- `Submission`: `owned` names the task value, `slot_override` is `shared_slot_override()`.
pub record Submission : Type 0 where
  pub id : TaskId
  pub owned : ℕ
  pub done : Option OutcomeTx
  pub task_name : Name
  pub slot_override : Option Name
  pub admission : AdmissionPolicy

pub data WatcherState : Type 0 where
  local : Option OutcomeTx → WatcherState
  parked committed : WatcherState

-- `AdmissionWatcher`: `owned` is `none` once `take_pending` has moved the task out.
pub record Watcher : Type 0 where
  pub id : TaskId
  pub event_task : Option Name
  pub state : WatcherState
  pub owned : Option ℕ

abbrev pub park_state : WatcherState → TaskId → State → WatcherState × State
park_state (local (some tx)) id st = (parked, record st { watchers = insert id tx st.watchers })
park_state (local none) id st = (parked, st)
park_state parked id st = (parked, st)
park_state committed id st = (committed, st)

unfoldable pub park : Watcher → State → Watcher × State
park w st = let (s, st') = park_state w.state w.id st in (record w { state = s }, st')

unfoldable pub commit : Watcher → Watcher
commit w = record w { state = committed }

abbrev pub resolve : WatcherState → TaskId → RejectionKind → State → State
resolve (local tx) id kind st = send_rejected tx kind st
resolve parked id kind st = finalize_rejected id kind st
resolve committed id kind st = st

abbrev pub to_list : Option ℕ → List ℕ
to_list none = []
to_list (some owned) = owned ∷ []

abbrev pub dispose_owned : Option ℕ → State → State
dispose_owned owned st = record st { disposed = st.disposed ++ to_list owned }

abbrev pub is_committed : WatcherState → Bool
is_committed committed = true
is_committed _ = false

-- `reject_with_event`.
unfoldable pub reject_with_event : Watcher → RejectionKind → State → Watcher × State
unfolding finalize_rejected
reject_with_event w kind st = if is_committed w.state then (w, st) else (
  record w { state = committed; owned = none },
  dispose_owned w.owned
      (resolve w.state w.id kind (publish (controller_rejected w.event_task w.id kind) st)),
)

-- `Drop for AdmissionWatcher`.
unfoldable pub drop_watcher : Watcher → State → State
unfolding reject_with_event
drop_watcher w st = (reject_with_event w admission_failed st).1

-- A rejection that ends the handler: the guard is dropped after it.
abbrev pub reject_and_drop : Watcher → RejectionKind → State → State
reject_and_drop w kind st = let (w', st') = reject_with_event w kind st in drop_watcher w' st'

abbrev pub policy_rejection : State → SlotState → AdmissionPolicy → Option RejectionKind
policy_rejection st slot queue =
    if Queue.queue_full st (length slot.queue) then some queue_full else none
policy_rejection st slot drop_if_running = some slot_busy
policy_rejection st slot replace = none

unfoldable pub busy_rejection : State → SlotState → AdmissionPolicy → Option RejectionKind
unfolding is_idle Queue.queue_full
busy_rejection st slot policy = if is_idle slot then none else policy_rejection st slot policy

abbrev pub existing_slot_rejection :
    Runtime → State → Option SlotState → AdmissionPolicy → Option RejectionKind
existing_slot_rejection r st none policy = none
existing_slot_rejection r st (some slot) policy =
    if r.down 1 then some controller_shutting_down else busy_rejection st slot policy

abbrev pub explicit_slot_rejection :
    Runtime → State → Option Name → AdmissionPolicy → Option RejectionKind
explicit_slot_rejection r st none policy = none
explicit_slot_rejection r st (some name) policy =
    existing_slot_rejection r st (lookup name st.slots) policy

abbrev pub finish : Name → Watcher → Placement → State
finish name w (accepted slot st none) = drop_watcher (commit w) (store name slot st)
finish name w (accepted slot st (some displaced)) =
    drop_watcher (commit w) (dispose displaced (store name slot st))
finish name w (rejected p kind slot st) =
    let (w', st') = reject_with_event w kind st in drop_watcher w' (dispose p (store name slot st'))
finish name w (handoff_failed p kind slot st) =
    let (w', st') = reject_with_event w kind st in
    drop_watcher w' (dispose p (gc_if_idle name slot st'))

abbrev pub place_in :
    Runtime
    → Name
    → AdmissionPolicy
    → PendingSubmission
    → Watcher
    → State
    → Option (SlotState × State)
    → State
place_in r name policy p w st none =
    let (w', st') = reject_with_event w resource_limit st in drop_watcher w' (dispose p st')
place_in r name policy p w _ (some (slot, st)) =
    if r.down 2
    then (let (w', st') = reject_with_event w controller_shutting_down st in
        drop_watcher w' (dispose p (gc_if_idle name slot st')))
    else finish name w (apply r name policy slot p st)

abbrev pub slot_name_of : Submission → Name
slot_name_of sub = elim sub.slot_override [ none ↦ sub.task_name | some name ↦ name ]

-- The part of `handle_submission` behind the preflight: `take_pending`, `park`, and placement.
unfoldable pub place : Runtime → Name → Submission → Watcher → State → State
unfolding park commit drop_watcher try_get_or_create_slot gc_if_idle dispose store
place r name sub w st =
    let (w', st') = park (record w { owned = none }) st in
    place_in r name sub.admission
      (record { id = sub.id; task_name = sub.task_name; owned = sub.owned }) w' st'
      (try_get_or_create_slot name st')

abbrev pub preflight : Runtime → Name → Submission → Watcher → State → Option RejectionKind → State
preflight r name sub w st (some kind) = reject_and_drop w kind st
preflight r name sub w st none = place r name sub w st

-- `AdmissionWatcher::new`, as `handle_submission` calls it.
abbrev pub watch : Submission → Watcher
watch sub = record {
  id = sub.id;
  event_task = some (slot_name_of sub);
  state = local sub.done;
  owned = some sub.owned;
}

unfoldable pub handle_submission : Runtime → Submission → State → State
unfolding place busy_rejection drop_watcher
handle_submission r sub st =
    let name = slot_name_of sub in
    let w = watch sub in
    if r.upgrade 0
    then (if r.down 0
        then reject_and_drop w controller_shutting_down st
        else preflight r name sub w st
            (explicit_slot_rejection r st sub.slot_override sub.admission))
    else reject_and_drop w admission_failed st
