-- ===== src/Registry/Join.antt =====
-- src/core/registry/removal/join.rs and scheduler/actor.rs: the owners of claimed actors. A claim
-- stays in `joins` until it finishes; `abort_actor` is what a deadline or the runtime token does to
-- it before, where `spawned` says whether the actor had been started. Waits and timers are not in
-- the model: which owner moves next is the caller's choice.
use taskvisor.Prelude.{
  Bool, true, Option, none, some, List, [], ◌∷◌, ◌++◌, ◌==◌, if◌then◌else◌, Map, map,
}
use taskvisor.Slot.{TaskId}
use taskvisor.Controller.State.{OutcomeTx}
use taskvisor.Registry.Reaper.{Reaper, register}
use taskvisor.Registry.State.{Entry, Claim, Registry}
use taskvisor.Registry.Removal.{claim_registered, spawn_join_report}
use taskvisor.Registry.Terminal.{JoinResult, finish_removal}

unfoldable pub find_claim : TaskId → List Claim → Option Claim
find_claim id [] = none
find_claim id (c ∷ rest) = if c.id == id then some c else find_claim id rest

unfoldable pub drop_claim : TaskId → List Claim → List Claim
drop_claim id [] = []
drop_claim id (c ∷ rest) = if c.id == id then rest else c ∷ drop_claim id rest

unfoldable pub mark_aborted : TaskId → List Claim → List Claim
mark_aborted id [] = []
mark_aborted id (c ∷ rest) =
    if c.id == id then record c { aborted = true } ∷ rest else c ∷ mark_aborted id rest

-- `ActorHandle::abort`: the attempt moves to the reaper.
abbrev pub transfer : Bool → Claim → Reaper → Reaper
transfer spawned c reaper =
    if spawned then register c.id c.name c.handle.activity c.handle.completion reaper else reaper

abbrev pub abort_claim : Bool → Registry → Option Claim → Registry
abort_claim spawned st none = st
abort_claim spawned st (some c) =
    if c.aborted
    then st
    else record st { joins = mark_aborted c.id st.joins; reaper = transfer spawned c st.reaper }

unfoldable pub abort_actor : Bool → TaskId → Registry → Registry
unfolding find_claim mark_aborted
abort_actor spawned id st = abort_claim spawned st (find_claim id st.joins)

-- The tail of `spawn_join_report` and `cancel_all_within`, once the actor is joined.
abbrev pub finish_claim : (OutcomeTx → Bool) → JoinResult → Registry → Option Claim → Registry
finish_claim delivers result st none = st
finish_claim delivers result st (some c) =
    finish_removal delivers c result (record st { joins = drop_claim c.id st.joins })

unfoldable pub finish_join : (OutcomeTx → Bool) → TaskId → JoinResult → Registry → Registry
unfolding find_claim drop_claim finish_removal
finish_join delivers id result st = finish_claim delivers result st (find_claim id st.joins)

-- `cleanup_completed_task`: the result, when it is ready.
abbrev pub cleanup_claimed :
    (OutcomeTx → Bool) → Option JoinResult → Registry → Option (Claim × Registry) → Registry
cleanup_claimed delivers ready st none = st
cleanup_claimed delivers none st (some (c, s)) = spawn_join_report c s
cleanup_claimed delivers (some result) st (some (c, s)) = finish_removal delivers c result s

unfoldable pub cleanup_completed_task :
    (OutcomeTx → Bool) → Option JoinResult → TaskId → Registry → Registry
unfolding claim_registered finish_removal
cleanup_completed_task delivers ready id st =
    cleanup_claimed delivers ready st (claim_registered id st)

abbrev pub push_claimed :
    (List Claim → Registry → List Claim × Registry)
    → List Claim
    → Registry
    → Option (Claim × Registry)
    → List Claim × Registry
push_claimed next claims st none = next claims st
push_claimed next claims st (some (c, s)) = next (claims ++ c ∷ []) s

-- The claims of `cancel_all_within`, under one lock.
unfoldable pub claim_all : List TaskId → List Claim → Registry → List Claim × Registry
unfolding claim_registered
claim_all [] claims st = (claims, st)
claim_all (id ∷ ids) claims st = push_claimed (claim_all ids) claims st (claim_registered id st)

abbrev pub keys : Map Entry → List TaskId
keys = map (λ entry. entry.0)

unfoldable pub cancel_all_within : Registry → Registry
unfolding claim_all
cancel_all_within st =
    let claimed = claim_all (keys st.tasks) [] st in
    record claimed.1 {
      joins = claimed.1.joins ++ claimed.0;
      cancelled = claimed.1.cancelled ++ map (λ c. c.id) claimed.0;
    }
