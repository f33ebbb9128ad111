-- ===== src/Tests/Controller.antt =====
-- A controller whose slot 0 runs task 1, with task 2 queued behind it; and one where task 7 then
-- replaced task 2, task 1 ended, and 7 waits for capacity.
use taskvisor.Prelude.{
  ◌+◌, ◌≤◌, ◌≡◌, refl, true, false, Option, none, some, List, [], ◌∷◌, ◌++◌, length, if◌then◌else◌,
  ◌==◌, has, lookup, insert, remove, contains, erase,
}
use taskvisor.Slot
use taskvisor.Slot.{
  TaskId, PendingSubmission, SlotState, idle, running, begin_admission, request_replacement,
  confirm_admission, reject_admission, complete_owner, phase_owner, owner_id, is_idle,
}
use taskvisor.Controller.Pump
use taskvisor.Controller.Queue
use taskvisor.Controller.Queue.{
  try_push_queued, index_queued, unindex_queued, replace_head_or_push, try_replace_head_or_push,
  try_get_or_create_slot,
}
use taskvisor.Controller.Handoff.{
  start_next_from_queue, advance_queue, start_in_slot, rejection_kind,
}
use taskvisor.Controller.Results.{
  handle_admission_result, handle_completion_result, advance_and_store,
}
use taskvisor.Controller.State.{
  Config, Runtime, RuntimeError, command_queue_full, State, pending_len, gc_if_idle, store,
  finalize_rejected, dispose,
}
use taskvisor.Controller.Submission.{
  Submission, handle_submission, drop_watcher, park, commit, reject_with_event, place,
  busy_rejection,
}
use taskvisor.Controller.Placement.{
  AdmissionPolicy, replace, queue, apply, admit_idle, replace_owner, queue_submission,
}
use taskvisor.Controller.Shutdown.{Command, submit, manage_identity}
use taskvisor.Controller.Loop.{
  Input, command, admission_resolved, completion_resolved, step, run, is_tracked, untrack,
}
use taskvisor.Controller.Ownership.{Consistent, IsFresh, count_tracked}
use taskvisor.Controller.Placement.Policies.{apply_busy, Promise}
use taskvisor.Controller.Pump.Line.{enqueue-line, cancel-line}
use taskvisor.Controller.Shutdown.{finalize_slot_state_on_shutdown, drain_pending_on_shutdown}
use taskvisor.Controller.Shutdown.Drained.{
  drain_pending_on_shutdown-values, rejections_of, values_of, IsDrained, pending_values,
  finalize_slot_state_on_shutdown-IsDrained,
}
use taskvisor.Controller.Ownership.Loop.{
  start, AllAdmissible, run-start-Consistent, step-Consistent,
}

abbrev small_config : Config
small_config = record {
  max_slot_queue = 2;
  max_controller_slots = some 4;
  max_total_pending = some 3;
  identity_operation_capacity = 1;
}

-- The registry has no capacity for task 7, and room for all others.
abbrev add_answer : TaskId → Option RuntimeError
add_answer id = if id == 7 then some command_queue_full else none

abbrev up : Runtime
up = record {
  upgrade = λ n. true;
  down = λ n. false;
  add = add_answer;
  commit = λ id. none;
  now = 5;
}

abbrev submission : TaskId → AdmissionPolicy → Submission
submission id policy = record {
  id = id;
  owned = 100 + id;
  done = some (200 + id);
  task_name = 0;
  slot_override = none;
  admission = policy;
}

abbrev task : TaskId → AdmissionPolicy → Input
task id policy = command (submit (submission id policy))

abbrev pending : TaskId → PendingSubmission
pending id = record { id = id; task_name = 0; owned = 100 + id }

abbrev busy_run : List (Runtime × Input)
busy_run = (up, task 1 queue) ∷ (up, admission_resolved 1 0 true) ∷ (up, task 2 queue) ∷ []

abbrev rest_run : List (Runtime × Input)
rest_run = (up, task 7 replace) ∷ (up, completion_resolved 1 0) ∷ []

abbrev busy : State
busy = run busy_run (start small_config 3)

abbrev waiting : State
waiting = run (busy_run ++ rest_run) (start small_config 3)

abbrev busy_slot : SlotState
busy_slot = record { phase = running 1 5; queue = pending 2 ∷ [] }

facts :
    AllAdmissible busy_run (start small_config 3)
    × AllAdmissible (busy_run ++ rest_run) (start small_config 3)
    × (lookup 0 busy.slots ≡ some busy_slot)
    × IsFresh 9 busy
    × (lookup 7 waiting.queued_slots ≡ none)
    × (has 7 waiting.capacity_pending ≡ true)
unfolding run step untrack is_tracked handle_submission drop_watcher park commit reject_with_event
    handle_admission_result handle_completion_result advance_and_store place busy_rejection
    try_get_or_create_slot apply admit_idle replace_owner queue_submission try_push_queued
    Queue.queue_full pending_len index_queued unindex_queued replace_head_or_push
    try_replace_head_or_push start_next_from_queue advance_queue start_in_slot rejection_kind
    gc_if_idle store finalize_rejected dispose begin_admission request_replacement confirm_admission
    reject_admission complete_owner phase_owner owner_id is_idle Slot.new Pump.new lookup insert
    remove count_tracked
facts = ((refl, (tt, (refl, tt))), (refl, (tt, (refl, (refl, (tt, tt))))), refl, refl, refl, refl)

run-start-Consistent_example : Consistent (run (busy_run ++ rest_run) (start small_config 3))
run-start-Consistent_example = run-start-Consistent small_config 3 (busy_run ++ rest_run) facts.1

busy-Consistent : Consistent busy
busy-Consistent = run-start-Consistent small_config 3 busy_run facts.0

waiting-Consistent : Consistent waiting
waiting-Consistent = run-start-Consistent small_config 3 (busy_run ++ rest_run) facts.1

step-Consistent_example : Consistent (step up (task 9 queue) busy)
step-Consistent_example = step-Consistent up (task 9 queue) busy facts.3 busy-Consistent

abbrev freed_slot : SlotState
freed_slot = record { phase = idle; queue = pending 2 ∷ [] }

apply_busy_example :
    Promise up.now replace 0
      (pending 9)
      busy_slot
      busy
      (apply up 0 replace busy_slot (pending 9) busy)
unfolding phase_owner
apply_busy_example = apply_busy up 0 replace busy_slot (pending 9) busy 1 refl

finalize_slot_state_on_shutdown-IsDrained_example :
    IsDrained (finalize_slot_state_on_shutdown waiting)
    × (length (finalize_slot_state_on_shutdown waiting).outcomes
        ≡ length waiting.outcomes + length waiting.watchers)
    × ((finalize_slot_state_on_shutdown waiting).disposed
        ≡ waiting.disposed ++ pending_values waiting)
finalize_slot_state_on_shutdown-IsDrained_example =
    finalize_slot_state_on_shutdown-IsDrained waiting

abbrev line_of_two : Pump.Pump
line_of_two = record { limit = 3; queued = 2 ∷ []; active = some 1 }

abbrev line_of_three : Pump.Pump
line_of_three = record { limit = 3; queued = 2 ∷ 4 ∷ []; active = some 1 }

enqueue-line_example :
    (Pump.line line_of_three ≡ Pump.line line_of_two ++ 4 ∷ [])
    × (Pump.len line_of_three ≡ Pump.len line_of_two + 1)
    × (Pump.len line_of_three ≤ line_of_three.limit)
unfolding Pump.enqueue Pump.len Pump.start_next
enqueue-line_example = enqueue-line line_of_two line_of_three 4 refl

cancel-line_example :
    (Pump.line (Pump.cancel line_of_three 2).0 ≡ erase 2 (Pump.line line_of_three))
    × ((Pump.cancel line_of_three 2).1 ≡ contains 2 (Pump.line line_of_three))
cancel-line_example = cancel-line line_of_three 2

abbrev leftover : List Command
leftover = submit (submission 9 queue) ∷ manage_identity 2 ∷ submit (submission 11 replace) ∷ []

drain_pending_on_shutdown-values_example :
    ((drain_pending_on_shutdown leftover busy).outcomes ≡ busy.outcomes ++ rejections_of leftover)
    × ((drain_pending_on_shutdown leftover busy).disposed ≡ busy.disposed ++ values_of leftover)
    × ((drain_pending_on_shutdown leftover busy).slots ≡ busy.slots)
drain_pending_on_shutdown-values_example = drain_pending_on_shutdown-values leftover busy
