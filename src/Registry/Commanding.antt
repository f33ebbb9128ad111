-- ===== src/Registry/Commanding.antt =====
-- src/core/registry/removal/commands.rs and join.rs: the removal commands and the invariant.
use taskvisor.Prelude.{
  Bool, Option, none, some, List, [], ◌∷◌, ◌++◌, ◌≡◌, refl, ap, ◌∙◌, lookup, tally, tally-append,
  tally-snoc, arith,
}
use mathlib.Core.List.{append-nil}
use taskvisor.Slot.{TaskId}
use taskvisor.Controller.State.{Name}
use taskvisor.Registry.State.{
  EntryState, registered, removing, Entry, Claim, remove_requested, Registry, publish,
}
use taskvisor.Registry.Removal.{
  resolve_remove, remove_task, remove_resolved, remove_task_by_name, CancelAction, claimed_action,
  cancel_state, cancel_entry, cancel_action, start_join, resolve_cancel_action, cancel_task,
  cancel_resolved, cancel_task_by_name,
}
use taskvisor.Registry.Join.{push_claimed, claim_all, keys, cancel_all_within}
use taskvisor.Registry.Soundness.{SoundWith, IsSound}
use taskvisor.Registry.Claiming.{ClaimSound, claim_registered-Sound, reorder-Sound, spawn-Sound}

-- What publishes only.
abbrev IsNote : (Registry → Registry) → Type 0
IsNote note =
    (joins : List Claim) (s : Registry)
    → SoundWith joins s
    → SoundWith joins (note s) × ((note s).joins ≡ s.joins)

resolve_remove-Sound :
    (note : Registry → Registry) (st : Registry) (claimed : Option (Claim × Registry))
    → IsNote note
    → IsSound st
    → ClaimSound st.joins st claimed
    → IsSound (resolve_remove note st claimed).1
resolve_remove-Sound note st none n m h =
    let noted = n st.joins st m in
    reorder-Sound st.joins (note st).joins (note st) (λ f. ap (tally f) noted.1) noted.0
resolve_remove-Sound note st (some (c, s)) n m h =
    let noted = n (c ∷ st.joins) s h.0 in spawn-Sound c st (note s) noted.0 (noted.1 ∙ h.1)

pub remove_task-Sound : (id : TaskId) (st : Registry) → IsSound st → IsSound (remove_task id st).1
unfolding remove_task
remove_task-Sound id st m =
    resolve_remove-Sound (λ s. s) st _ (λ joins s h. (h, refl)) m
      (claim_registered-Sound id st.joins st m)

remove_resolved-Sound :
    (st : Registry) (found : Option TaskId) → IsSound st → IsSound (remove_resolved st found).1
remove_resolved-Sound st none m = m
remove_resolved-Sound st (some id) m =
    resolve_remove-Sound (publish (remove_requested id)) st _ (λ joins s h. (h, refl)) m
      (claim_registered-Sound id st.joins st m)

pub remove_task_by_name-Sound :
    (name : Name) (st : Registry) → IsSound st → IsSound (remove_task_by_name name st).1
unfolding remove_task_by_name
remove_task_by_name-Sound name st m = remove_resolved-Sound st _ m

-- A cancel action, with the owner that it starts.
abbrev ActionSound : Option CancelAction → Type 0
ActionSound none = Unit
ActionSound (some a) = IsSound (start_join a.claim a.state)

claimed_action-Sound :
    (st : Registry) (claimed : Option (Claim × Registry))
    → ClaimSound st.joins st claimed
    → ActionSound (claimed_action claimed)
claimed_action-Sound st none h = tt
claimed_action-Sound st (some (c, s)) h = spawn-Sound c st s h.0 h.1

cancel_entry-Sound :
    (id : TaskId) (st : Registry) (found : Option Entry)
    → IsSound st
    → ActionSound (cancel_entry id st found)
cancel_entry-Sound id st none m = tt
cancel_entry-Sound id st (some e) m = cancel_state-Sound e.state
  where
    cancel_state-Sound : (state : EntryState) → ActionSound (cancel_state id st state)
    cancel_state-Sound (removing latch) = m
    cancel_state-Sound (registered handle) =
        claimed_action-Sound st _ (claim_registered-Sound id st.joins st m)

cancel_action-Sound : (id : TaskId) (st : Registry) → IsSound st → ActionSound (cancel_action id st)
unfolding cancel_action
cancel_action-Sound id st m = cancel_entry-Sound id st (lookup id st.tasks) m

start_join-publish :
    (id : TaskId) (claim : Option Claim) (s : Registry)
    → IsSound (start_join claim s)
    → IsSound (start_join claim (publish (remove_requested id) s))
start_join-publish id none s m = m
start_join-publish id (some c) s m = m

resolve_cancel_action-Sound :
    (id : TaskId) (st : Registry) (action : Option CancelAction)
    → IsSound st
    → ActionSound action
    → IsSound (resolve_cancel_action id st action).1
resolve_cancel_action-Sound id st none m h = m
resolve_cancel_action-Sound id st (some a) m h = start_join-publish id a.claim a.state h

pub cancel_task-Sound : (id : TaskId) (st : Registry) → IsSound st → IsSound (cancel_task id st).1
unfolding cancel_task
cancel_task-Sound id st m =
    resolve_cancel_action-Sound id st (cancel_action id st) m (cancel_action-Sound id st m)

cancel_resolved-Sound :
    (st : Registry) (found : Option TaskId) → IsSound st → IsSound (cancel_resolved st found).1
cancel_resolved-Sound st none m = m
cancel_resolved-Sound st (some id) m =
    resolve_cancel_action-Sound id (publish (remove_requested id) st) (cancel_action id st) m
      (cancel_action-Sound id st m)

pub cancel_task_by_name-Sound :
    (name : Name) (st : Registry) → IsSound st → IsSound (cancel_task_by_name name st).1
unfolding cancel_task_by_name
cancel_task_by_name-Sound name st m = cancel_resolved-Sound st _ m

-- The claims that are taken join the owners.
abbrev ClaimedAll : List Claim × Registry → Type 0
ClaimedAll out = SoundWith (out.1.joins ++ out.0) out.1

push_claimed-Sound :
    (next : List Claim → Registry → List Claim × Registry) (claims : List Claim) (st : Registry)
    (claimed : Option (Claim × Registry))
    → ((more : List Claim) (s : Registry)
        → SoundWith (s.joins ++ more) s
        → ClaimedAll (next more s))
    → SoundWith (st.joins ++ claims) st
    → ClaimSound (st.joins ++ claims) st claimed
    → ClaimedAll (push_claimed next claims st claimed)
unfolding tally
push_claimed-Sound next claims st none step m h = step claims st m
push_claimed-Sound next claims st (some (c, s)) step m h = step (claims ++ c ∷ []) s (
    reorder-Sound (c ∷ (st.joins ++ claims)) (s.joins ++ (claims ++ c ∷ [])) s
      (λ f. behind f st.joins s.joins claims c h.1) h.0)
  where
    behind :
        (f : Claim → Bool) (old new claims : List Claim) (c : Claim)
        → new ≡ old
        → tally f (new ++ (claims ++ c ∷ [])) ≡ tally f (c ∷ (old ++ claims))
    behind f old new claims c e = omega (
      arith,
      tally-append f new (claims ++ c ∷ []),
      tally-snoc f claims c,
      tally-append f old claims,
      ap (tally f) e,
    )

claim_all-Sound :
    (ids : List TaskId) (claims : List Claim) (st : Registry)
    → SoundWith (st.joins ++ claims) st
    → ClaimedAll (claim_all ids claims st)
unfolding claim_all
claim_all-Sound [] claims st m = m
claim_all-Sound (id ∷ ids) claims st m =
    push_claimed-Sound (claim_all ids) claims st _ (claim_all-Sound ids) m
      (claim_registered-Sound id (st.joins ++ claims) st m)

pub cancel_all_within-Sound : (st : Registry) → IsSound st → IsSound (cancel_all_within st)
unfolding cancel_all_within
cancel_all_within-Sound st m =
    claim_all-Sound (keys st.tasks) [] st
      (reorder-Sound st.joins (st.joins ++ []) st (λ f. ap (tally f) (append-nil st.joins)) m)
