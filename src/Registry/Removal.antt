-- ===== src/Registry/Removal.antt =====
-- src/core/registry/removal/commands.rs and the claims of join.rs: from registered to removing.
use taskvisor.Prelude.{Bool, true, false, Option, none, some, [], ◌∷◌, ◌++◌, lookup, insert}
use taskvisor.Slot.{TaskId}
use taskvisor.Controller.State.{Name}
use taskvisor.Registry.Reaper.{Latch}
use taskvisor.Registry.State.{
  EntryState, registered, removing, Entry, Claim, remove_requested, Registry, publish,
  inc_with_name,
}

abbrev pub claim_state : TaskId → Entry → Registry → EntryState → Option (Claim × Registry)
claim_state id e st (removing latch) = none
claim_state id e st (registered handle) = some (
  record { id = id; name = e.name; handle = handle; aborted = false },
  record st {
    tasks = insert id (record e { state = removing handle.completion }) st.tasks;
    pending = inc_with_name id e.name st.pending;
  },
)

abbrev pub claim_entry : TaskId → Registry → Option Entry → Option (Claim × Registry)
claim_entry id st none = none
claim_entry id st (some e) = claim_state id e st e.state

unfoldable pub claim_registered : TaskId → Registry → Option (Claim × Registry)
claim_registered id st = claim_entry id st (lookup id st.tasks)

-- The detached task that owns the claim from here on.
abbrev pub spawn_join_report : Claim → Registry → Registry
spawn_join_report c st = record st { joins = st.joins ++ c ∷ [] }

abbrev pub cancel_token : TaskId → Registry → Registry
cancel_token id st = record st { cancelled = st.cancelled ++ id ∷ [] }

abbrev pub resolve_remove :
    (Registry → Registry) → Registry → Option (Claim × Registry) → Bool × Registry
resolve_remove note st none = (false, note st)
resolve_remove note st (some (c, s)) = (true, spawn_join_report c (cancel_token c.id (note s)))

-- With the reply.
unfoldable pub remove_task : TaskId → Registry → Bool × Registry
unfolding claim_registered
remove_task id st = resolve_remove (λ s. s) st (claim_registered id st)

abbrev pub remove_resolved : Registry → Option TaskId → Bool × Registry
remove_resolved st none = (false, st)
remove_resolved st (some id) =
    resolve_remove (publish (remove_requested id)) st (claim_registered id st)

unfoldable pub remove_task_by_name : Name → Registry → Bool × Registry
unfolding claim_registered
remove_task_by_name name st = remove_resolved st (lookup name st.by_name)

pub record CancelDecision : Type 0 where
  pub id : TaskId
  pub claimed : Bool
  pub completion : Latch

-- `CancelAction`, and the state that is left.
pub record CancelAction : Type 0 where
  pub decision : CancelDecision
  pub claim : Option Claim
  pub state : Registry

abbrev pub claimed_action : Option (Claim × Registry) → Option CancelAction
claimed_action none = none
claimed_action (some (c, s)) = some (record {
  decision = record { id = c.id; claimed = true; completion = c.handle.completion };
  claim = some c;
  state = s;
})

abbrev pub cancel_state : TaskId → Registry → EntryState → Option CancelAction
cancel_state id st (removing latch) = some (record {
  decision = record { id = id; claimed = false; completion = latch };
  claim = none;
  state = st;
})
cancel_state id st (registered handle) = claimed_action (claim_registered id st)

abbrev pub cancel_entry : TaskId → Registry → Option Entry → Option CancelAction
cancel_entry id st none = none
cancel_entry id st (some e) = cancel_state id st e.state

unfoldable pub cancel_action : TaskId → Registry → Option CancelAction
unfolding claim_registered
cancel_action id st = cancel_entry id st (lookup id st.tasks)

abbrev pub start_join : Option Claim → Registry → Registry
start_join none st = st
start_join (some c) st = spawn_join_report c (cancel_token c.id st)

abbrev pub resolve_cancel_action :
    TaskId → Registry → Option CancelAction → Option CancelDecision × Registry
resolve_cancel_action id st none = (none, st)
resolve_cancel_action id st (some a) =
    (some a.decision, start_join a.claim (publish (remove_requested id) a.state))

unfoldable pub cancel_task : TaskId → Registry → Option CancelDecision × Registry
unfolding cancel_action
cancel_task id st = resolve_cancel_action id st (cancel_action id st)

abbrev pub cancel_resolved : Registry → Option TaskId → Option CancelDecision × Registry
cancel_resolved st none = (none, st)
cancel_resolved st (some id) =
    resolve_cancel_action id (publish (remove_requested id) st) (cancel_action id st)

unfoldable pub cancel_task_by_name : Name → Registry → Option CancelDecision × Registry
unfolding cancel_action
cancel_task_by_name name st = cancel_resolved st (lookup name st.by_name)
