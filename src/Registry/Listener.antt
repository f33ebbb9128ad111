-- ===== src/Registry/Listener.antt =====
-- src/core/registry/listener.rs and protocol.rs: the commands, and the loop that handles them.
--
-- `select!` may take any ready branch: `pick` says which one it takes, and a turn whose pick finds
-- an empty queue waits. `handled` lists what the loop handled, and `fenced` the acknowledged
-- fences. A command carries the moves of other tasks that fall between its two locked sections. A
-- panic in a handler is contained by the source and not in the model.
use taskvisor.Prelude.{ℕ, ◌+◌, Bool, Option, List, [], ◌∷◌, ◌++◌, leb, if◌then◌else◌}
use taskvisor.Slot.{TaskId}
use taskvisor.Controller.State.{Name, OutcomeTx}
use taskvisor.Registry.Reaper
use taskvisor.Registry.State.{Registry, AddItem}
use taskvisor.Registry.Removal.{
  CancelDecision, remove_task, remove_task_by_name, cancel_task, cancel_task_by_name,
}
use taskvisor.Registry.Terminal.{JoinResult}
use taskvisor.Registry.Join.{cleanup_completed_task, cancel_all_within}
use taskvisor.Registry.Background.{Move, move}
use taskvisor.Registry.Admission.{AddReply, spawn_and_register, spawn_and_register_batch}

abbrev pub completion_burst_limit : ℕ
completion_burst_limit = 64

-- `RegistryCommand`.
pub data Command : Type 0 where
  add : AddItem → List Move → Command
  add_batch : List AddItem → List Move → Command
  remove cancel : TaskId → Command
  remove_by_name cancel_by_name : Name → Command

pub data Reply : Type 0 where
  of_add : AddReply → Reply
  of_remove : Bool → Reply
  of_cancel : Option CancelDecision → Reply

unfoldable pub handle_command : (OutcomeTx → Bool) → Command → Registry → Reply × Registry
unfolding spawn_and_register spawn_and_register_batch remove_task remove_task_by_name cancel_task
    cancel_task_by_name
handle_command delivers (add item moves) st =
    let out = spawn_and_register delivers item moves st in (of_add out.0, out.1)
handle_command delivers (add_batch items moves) st =
    let out = spawn_and_register_batch delivers items moves st in (of_add out.0, out.1)
handle_command delivers (remove id) st = let out = remove_task id st in (of_remove out.0, out.1)
handle_command delivers (remove_by_name name) st =
    let out = remove_task_by_name name st in (of_remove out.0, out.1)
handle_command delivers (cancel id) st = let out = cancel_task id st in (of_cancel out.0, out.1)
handle_command delivers (cancel_by_name name) st =
    let out = cancel_task_by_name name st in (of_cancel out.0, out.1)

-- What changes the registry: a command, a completion with the result that is ready, or a move of
-- another task.
pub data Input : Type 0 where
  command : Command → Input
  completed : TaskId → Option JoinResult → Input
  moved : Move → Input

unfoldable pub step : (OutcomeTx → Bool) → Input → Registry → Registry
unfolding handle_command cleanup_completed_task move
step delivers (command c) st = (handle_command delivers c st).1
step delivers (completed id ready) st = cleanup_completed_task delivers ready id st
step delivers (moved next) st = move delivers next st

unfoldable pub run : (OutcomeTx → Bool) → List Input → Registry → Registry
unfolding step
run delivers [] st = st
run delivers (input ∷ inputs) st = run delivers inputs (step delivers input st)

-- `Registry::new`.
abbrev pub boot : Option ℕ → Registry
boot limit = record {
  max_registered_tasks = limit;
  tasks = [];
  by_name = [];
  pending = record { counts = []; names = [] };
  reaper = Reaper.new;
  joins = [];
  logical = [];
  cancelled = [];
  scheduled = [];
  empty_notified = 0;
  outcomes = [];
  attached = [];
  poisoned = [];
  disposed = [];
  events = [];
}

-- The loop. A control message is the number of its reply.
pub record Listener : Type 0 where
  pub registry : Registry
  pub completion_burst : ℕ
  pub controls : List ℕ
  pub commands : List Command
  pub completions : List (TaskId × Option JoinResult)
  pub handled : List Input
  pub fenced : List ℕ

pub data Pick : Type 0 where
  completion control management : Pick

-- One input, with its entry in `handled`.
abbrev pub take_input : (OutcomeTx → Bool) → Input → Listener → Listener
take_input delivers input l = record l {
  registry = step delivers input l.registry;
  handled = l.handled ++ input ∷ [];
}

-- The commands that a fence drains, in order.
unfoldable pub drain : (OutcomeTx → Bool) → List Command → Listener → Listener
unfolding step
drain delivers [] l = l
drain delivers (c ∷ rest) l = drain delivers rest (take_input delivers (command c) l)

unfoldable pub handle_control : (OutcomeTx → Bool) → ℕ → Listener → Listener
unfolding drain
handle_control delivers reply l =
    let drained = drain delivers l.commands (record l { commands = [] }) in
    record drained { fenced = drained.fenced ++ reply ∷ [] }

abbrev pub receive_control : (OutcomeTx → Bool) → Listener → Listener → List ℕ → Listener
receive_control delivers otherwise l [] = otherwise
receive_control delivers otherwise l (reply ∷ rest) =
    record (handle_control delivers reply (record l { controls = rest })) { completion_burst = 0 }

abbrev pub receive_command : (OutcomeTx → Bool) → Listener → Listener → List Command → Listener
receive_command delivers otherwise l [] = otherwise
receive_command delivers otherwise l (c ∷ rest) =
    record (take_input delivers (command c) (record l { commands = rest })) { completion_burst = 0 }

abbrev pub receive_completion :
    (OutcomeTx → Bool) → Listener → List (TaskId × Option JoinResult) → Listener
receive_completion delivers l [] = l
receive_completion delivers l ((id, ready) ∷ rest) =
    take_input delivers (completed id ready)
      (record l { completions = rest; completion_burst = l.completion_burst + 1 })

abbrev pub select : (OutcomeTx → Bool) → Pick → Listener → Listener
select delivers completion l = receive_completion delivers l l.completions
select delivers control l = receive_control delivers l l l.controls
select delivers management l = receive_command delivers l l l.commands

-- One iteration of the loop.
unfoldable pub turn : (OutcomeTx → Bool) → Pick → Listener → Listener
unfolding handle_control step
turn delivers pick l =
    if leb completion_burst_limit l.completion_burst
    then receive_control delivers
        (receive_command delivers (select delivers pick (record l { completion_burst = 0 })) l
          l.commands)
        l l.controls
    else select delivers pick l

unfoldable pub turns : (OutcomeTx → Bool) → List Pick → Listener → Listener
unfolding turn
turns delivers [] l = l
turns delivers (pick ∷ picks) l = turns delivers picks (turn delivers pick l)

-- The commands that are left at shutdown, the fences, and the removal of everything.
unfoldable pub drain_controls : (OutcomeTx → Bool) → List ℕ → Listener → Listener
unfolding handle_control
drain_controls delivers [] l = l
drain_controls delivers (reply ∷ rest) l =
    drain_controls delivers rest (handle_control delivers reply l)

unfoldable pub shut_down : (OutcomeTx → Bool) → Listener → Listener
unfolding drain drain_controls step cancel_all_within
shut_down delivers l =
    let drained = drain delivers l.commands (record l { commands = [] }) in
    let fenced = drain_controls delivers l.controls (record drained { controls = [] }) in
    take_input delivers (moved Move.cancels_all) fenced
