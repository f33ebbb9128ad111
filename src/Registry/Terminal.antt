-- ===== src/Registry/Terminal.antt =====
-- src/core/registry/removal/terminal.rs: the commit of one removal. Interrupted commits, which hand
-- the report to a detached task, are not in the model.
use taskvisor.Prelude.{
  ℕ, ◌+◌, Bool, true, false, Option, none, some, [], ◌∷◌, ◌++◌, ◌==◌, if◌then◌else◌, Map, lookup,
  remove,
}
use taskvisor.Slot.{TaskId}
use taskvisor.Controller.State.{Name, OutcomeTx}
use taskvisor.Actor
use taskvisor.Actor.{ActorExitReason}
use taskvisor.Registry.Reaper.{Latch, attach_terminal}
use taskvisor.Registry.State
use taskvisor.Registry.State.{
  Handle, EntryState, registered, removing, Entry, Claim, TaskOutcome, task_removed, task_finished,
  Registry, publish, dec, send_outcome,
}

-- `Result<ActorExitReason, ActorJoinError>`.
pub data JoinResult : Type 0 where
  returned : ActorExitReason → JoinResult
  join_panicked : (cleanup_poisoned : Bool) → JoinResult
  join_aborted : JoinResult

-- With whether the cleanup bundle is poisoned.
unfoldable pub outcome_of : JoinResult → TaskOutcome × Bool
outcome_of (returned Actor.completed) = (State.completed, false)
outcome_of (returned Actor.stopped) = (State.canceled, false)
outcome_of (returned (Actor.panicked cleanup_poisoned)) = (State.panicked, cleanup_poisoned)
outcome_of (returned (Actor.exhausted limit reason exit_code)) =
    (State.failed reason exit_code, false)
outcome_of (returned (Actor.died reason exit_code)) = (State.fatal reason exit_code, false)
outcome_of (join_panicked cleanup_poisoned) = (State.panicked, cleanup_poisoned)
outcome_of join_aborted = (State.force_aborted, false)

-- What a removal has to report when its state is committed.
pub record Report : Type 0 where
  pub id : TaskId
  pub outcome : TaskOutcome
  pub done : Option OutcomeTx
  pub completion : Latch
  pub bundle : ℕ

abbrev pub report_outcome : (OutcomeTx → Bool) → Name → Report → Registry → Registry
report_outcome delivers name p st = publish (task_removed name p.id) (
    send_outcome delivers p.done p.bundle p.outcome
      (publish (task_finished name p.id p.outcome) st))

-- `TerminalFinalizer`: its drop.
abbrev pub is_empty_map : Map Entry → Bool
is_empty_map [] = true
is_empty_map (e ∷ rest) = false

abbrev pub finalize : Latch → Report → Bool → Registry → Registry
finalize state_completion p is_empty st = record st {
  reaper = attach_terminal p.id p.bundle (some state_completion) p.completion st.reaper;
  pending = dec p.id st.pending;
  logical = st.logical ++ state_completion ∷ p.completion ∷ [];
  empty_notified = if is_empty then st.empty_notified + 1 else st.empty_notified;
}

abbrev pub maps_to : Option TaskId → TaskId → Bool
maps_to none id = false
maps_to (some found) id = found == id

-- Membership removal from both indexes.
abbrev pub remove_member : TaskId → Name → Registry → Registry
remove_member id name st = record st {
  tasks = remove id st.tasks;
  by_name = if maps_to (lookup name st.by_name) id then remove name st.by_name else st.by_name;
}

-- `retain_terminal`, and the barriers of `finish_without_membership`.
abbrev pub finish_without_membership : (OutcomeTx → Bool) → Report → Registry → Registry
finish_without_membership delivers p st =
    let sent = send_outcome delivers p.done p.bundle p.outcome st in
    record sent {
      reaper = attach_terminal p.id p.bundle none p.completion sent.reaper;
      pending = dec p.id sent.pending;
      logical = sent.logical ++ p.completion ∷ [];
    }

abbrev pub commit_state : (OutcomeTx → Bool) → Report → Registry → Entry → EntryState → Registry
commit_state delivers p st e (registered handle) = finish_without_membership delivers p st
commit_state delivers p st e (removing state_completion) =
    let removed = remove_member p.id e.name st in
    finalize state_completion p (is_empty_map removed.tasks)
      (report_outcome delivers e.name p removed)

abbrev pub commit_entry : (OutcomeTx → Bool) → Report → Registry → Option Entry → Registry
commit_entry delivers p st none = finish_without_membership delivers p st
commit_entry delivers p st (some e) = commit_state delivers p st e e.state

unfoldable pub commit : (OutcomeTx → Bool) → Report → Registry → Registry
commit delivers p st = commit_entry delivers p st (lookup p.id st.tasks)

-- A joined result, or the outcome of a claim whose actor was aborted.
abbrev pub classify : Claim → JoinResult → TaskOutcome × Bool
classify c result = if c.aborted then (State.force_aborted, false) else outcome_of result

unfoldable pub finish_removal : (OutcomeTx → Bool) → Claim → JoinResult → Registry → Registry
unfolding outcome_of commit
finish_removal delivers c result st =
    let classified = classify c result in
    commit delivers
      (record {
        id = c.id;
        outcome = classified.0;
        done = c.handle.done;
        completion = c.handle.completion;
        bundle = c.handle.bundle;
      })
      (record st {
        poisoned = if classified.1 then st.poisoned ++ c.handle.bundle ∷ [] else st.poisoned;
      })
