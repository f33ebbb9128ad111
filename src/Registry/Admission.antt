-- ===== src/Registry/Admission.antt =====
-- src/core/registry/admission/single.rs, batch.rs and mod.rs: the add commands. Between the check
-- under the read lock and the one under the write lock, `moves` run. Building the actor of a
-- prepared registration is not in the model.
use taskvisor.Prelude.{
  Bool, ◌||◌, Option, none, some, List, [], ◌∷◌, ◌++◌, if◌then◌else◌, length, contains, map, insert,
}
use taskvisor.Slot.{TaskId}
use taskvisor.Controller.State.{
  Name, OutcomeTx, RejectionKind, already_exists, batch_rejected, resource_limit, RuntimeError,
  task_already_exists, resource_limit_reached,
}
use taskvisor.Registry.State.{
  Handle, registered, rejected, task_added, task_add_failed, Registry, AddItem, publish,
  send_outcome, registered_limit_exceeded, conflicts,
}
use taskvisor.Registry.Background.{Move, play}

-- `AddReply`.
pub data AddReply : Type 0 where
  added : AddReply
  refused : RuntimeError → AddReply

-- `conflict`: the name check; `full`: the limit check.
abbrev pub verdict : (conflict full : Bool) → Option RejectionKind
verdict conflict full =
    if conflict then some already_exists else if full then some resource_limit else none

unfoldable pub validate : Name → Registry → Option RejectionKind
unfolding conflicts registered_limit_exceeded
validate name st = verdict (conflicts st name) (registered_limit_exceeded st (length st.tasks) 1)

abbrev pub error_of : RejectionKind → RuntimeError
error_of resource_limit = resource_limit_reached
error_of _ = task_already_exists

-- `deliver_or_attach_rejection`, the disposal of the task, and the event.
abbrev pub reject : (OutcomeTx → Bool) → AddItem → RejectionKind → Registry → Registry
reject delivers item kind st =
    let sent = send_outcome delivers item.done item.bundle (rejected kind) st in
    publish (task_add_failed item.name item.id kind)
      (record sent { disposed = sent.disposed ++ item.bundle ∷ [] })

abbrev pub handle_of : AddItem → Handle
handle_of item = record {
  done = item.done;
  completion = item.completion;
  bundle = item.bundle;
  activity = item.activity;
}

-- The insertion into both indexes.
abbrev pub register_member : AddItem → Registry → Registry
register_member item st = record st {
  tasks =
      insert item.id (record { name = item.name; state = registered (handle_of item) }) st.tasks;
  by_name = insert item.name item.id st.by_name;
}

abbrev pub start : List AddItem → Registry → Registry
start items st = record st {
  events = st.events ++ map (λ item. task_added item.name item.id) items;
  scheduled = st.scheduled ++ map (λ item. item.id) items;
}

-- Under the write lock.
abbrev pub admit :
    (OutcomeTx → Bool) → AddItem → Registry → Option RejectionKind → AddReply × Registry
admit delivers item st none = (added, start (item ∷ []) (register_member item st))
admit delivers item st (some kind) = (refused (error_of kind), reject delivers item kind st)

abbrev pub recheck :
    (OutcomeTx → Bool) → AddItem → List Move → Registry → Option RejectionKind → AddReply × Registry
recheck delivers item moves st (some kind) = (refused (error_of kind), reject delivers item kind st)
recheck delivers item moves st none =
    let current = play delivers moves st in admit delivers item current (validate item.name current)

unfoldable pub spawn_and_register :
    (OutcomeTx → Bool) → AddItem → List Move → Registry → AddReply × Registry
unfolding validate play
spawn_and_register delivers item moves st = recheck delivers item moves st (validate item.name st)

-- The items whose name is taken, or stands in the batch before them.
unfoldable pub scan : Registry → List Name → List AddItem → List TaskId
unfolding conflicts contains
scan st seen [] = []
scan st seen (item ∷ items) =
    let rest = scan st (item.name ∷ seen) items in
    if conflicts st item.name || contains item.name seen then item.id ∷ rest else rest

abbrev pub batch_kind : List TaskId → AddItem → RejectionKind
batch_kind conflicting item =
    if contains item.id conflicting then already_exists else batch_rejected

-- The events of all items, and the disposal of their tasks.
abbrev pub reject_all : (AddItem → RejectionKind) → List AddItem → Registry → Registry
reject_all kind items st = record st {
  events = st.events ++ map (λ item. task_add_failed item.name item.id (kind item)) items;
  disposed = st.disposed ++ map (λ item. item.bundle) items;
}

unfoldable pub register_all : List AddItem → Registry → Registry
register_all [] st = st
register_all (item ∷ items) st = register_all items (register_member item st)

-- The two checks of a batch on one state, and what follows when both pass.
abbrev pub check_batch :
    List AddItem → Registry → (Registry → AddReply × Registry) → List TaskId → AddReply × Registry
check_batch items st next (id ∷ ids) =
    (refused task_already_exists, reject_all (batch_kind (id ∷ ids)) items st)
check_batch items st next [] =
    if registered_limit_exceeded st (length st.tasks) (length items)
    then (refused resource_limit_reached, reject_all (λ item. resource_limit) items st)
    else next st

abbrev pub accept_batch : List AddItem → Registry → AddReply × Registry
accept_batch items st = (added, start items (register_all items st))

abbrev pub recheck_batch :
    (OutcomeTx → Bool) → List AddItem → List Move → Registry → AddReply × Registry
recheck_batch delivers items moves st =
    let current = play delivers moves st in
    check_batch items current (accept_batch items) (scan current [] items)

unfoldable pub spawn_and_register_batch :
    (OutcomeTx → Bool) → List AddItem → List Move → Registry → AddReply × Registry
unfolding scan register_all play registered_limit_exceeded contains
spawn_and_register_batch delivers items moves st =
    check_batch items st (recheck_batch delivers items moves) (scan st [] items)
