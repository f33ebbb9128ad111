-- ===== src/Registry/Owning.antt =====
-- src/core/registry/removal/join.rs and scheduler/actor.rs: the moves of claim owners and the
-- invariant.
use taskvisor.Prelude.{
  ℕ, ◌+◌, ◌≤◌, Bool, true, false, Option, none, some, List, [], ◌∷◌, ◌≡◌, refl, ap, sym, ◌∙◌, inl,
  inr, Within-mono, one, tally, tally-snoc, Bool-cases, arith,
}
use taskvisor.Slot.{TaskId}
use taskvisor.Controller.State.{OutcomeTx}
use taskvisor.Registry.Reaper.{Latch, Reaper, new_record, register, belongs, complete_physical}
use taskvisor.Registry.Matching.{IsMatched}
use taskvisor.Registry.Keeping.{complete_physical-Kept, register-IsMatched}
use taskvisor.Registry.State.{Claim, Registry}
use taskvisor.Registry.Terminal.{JoinResult, finish_removal}
use taskvisor.Registry.Join.{
  find_claim, drop_claim, mark_aborted, transfer, abort_claim, abort_actor, finish_claim,
  finish_join, cleanup_claimed, cleanup_completed_task,
}
use taskvisor.Registry.Soundness.{
  Test, of_claim, unaborted, orphan, any, of_id, alive, SoundWith, IsSound,
}
use taskvisor.Registry.Claiming.{
  ClaimSound, claim_registered-Sound, reorder-Sound, spawn-Sound, fewer-IsExclusive,
}
use taskvisor.Registry.Finishing.{finish_removal-Sound, finish_removal-joins}

module _ (id : TaskId) (c : Claim) where
  find_claim_id : (joins : List Claim) → find_claim id joins ≡ some c → c.id ≡ id
  unfolding find_claim
  find_claim_id [] h = ground arith
  find_claim_id (d ∷ joins) h = ground (arith, find_claim_id joins)

  tally-drop_claim :
      (f : Claim → Bool) (joins : List Claim)
      → find_claim id joins ≡ some c
      → tally f (drop_claim id joins) + one (f c) ≡ tally f joins
  unfolding find_claim drop_claim tally
  tally-drop_claim f [] h = ground arith
  tally-drop_claim f (d ∷ joins) h = ground (arith, tally-drop_claim f joins)

  tally-mark_aborted :
      (f : Claim → Bool) (joins : List Claim)
      → find_claim id joins ≡ some c
      → tally f (mark_aborted id joins) + one (f c)
        ≡ tally f joins + one (f (record c { aborted = true }))
  unfolding find_claim mark_aborted tally
  tally-mark_aborted f [] h = ground arith
  tally-mark_aborted f (d ∷ joins) h = ground (arith, tally-mark_aborted f joins)

transfer-tally :
    (q : Test) (c : Claim) (r : Reaper) (spawned : Bool)
    → tally (orphan q) (transfer spawned c r).records
      ≤ tally (orphan q) r.records + one (of_claim q c)
unfolding register
transfer-tally q c r true =
    omega (arith, tally-snoc (orphan q) r.records (new_record c.id c.name c.handle.completion))
transfer-tally q c r false = omega arith

transfer-IsMatched :
    (c : Claim) (r : Reaper) (spawned : Bool)
    → IsMatched r
    → tally (belongs c.id) r.records ≡ 0
    → IsMatched (transfer spawned c r)
transfer-IsMatched c r true m fresh =
    register-IsMatched c.id c.name c.handle.activity c.handle.completion r m fresh
transfer-IsMatched c r false m fresh = m

-- The abort of an owner's actor: its attempt moves to the reaper, or it never started.
transfer-Sound :
    (c : Claim) (st : Registry) (spawned : Bool)
    → IsSound st
    → c.aborted ≡ false
    → find_claim c.id st.joins ≡ some c
    → IsSound
        (record st { joins = mark_aborted c.id st.joins; reaper = transfer spawned c st.reaper })
transfer-Sound c st spawned m running h =
    let same : (q : Test) → _ = λ q. tally-mark_aborted c.id c (of_claim q) st.joins h in
    let less : (q : Test)
        → alive q st.tasks (mark_aborted c.id st.joins) (transfer spawned c st.reaper).records
          ≤ alive q st.tasks st.joins st.reaper.records =
      λ q. ground (
        arith,
        running,
        tally-mark_aborted c.id c (unaborted q) st.joins h,
        transfer-tally q c st.reaper spawned,
      ) in
    let fresh : tally (belongs c.id) st.reaper.records ≡ 0 = ground (
      arith,
      running,
      tally-drop_claim c.id c (unaborted (of_id c.id)) st.joins h,
      m.2.one_task c.id,
    ) in
    (
      m.0,
      record {
        unique_counts = m.1.unique_counts;
        owners = λ q. omega (arith, same q, m.1.owners q);
        pending = λ id. omega (arith, same (of_id id), m.1.pending id);
        positive = m.1.positive;
      },
      fewer-IsExclusive m.2 less,
      Within-mono st.max_registered_tasks _ _ m.3 (less any),
      transfer-IsMatched c st.reaper spawned m.4 fresh,
    )

abort_claim-Sound :
    (spawned : Bool) (id : TaskId) (st : Registry) (found : Option Claim)
    → IsSound st
    → find_claim id st.joins ≡ found
    → IsSound (abort_claim spawned st found)
abort_claim-Sound spawned id st none m h = m
abort_claim-Sound spawned id st (some c) m h = elim (Bool-cases c.aborted) [
  | inl done ↦ simp (done) m
  | inr running ↦ simp (running) (
      transfer-Sound c st spawned m running
        (ap (λ k. find_claim k st.joins) (find_claim_id id c st.joins h) ∙ h))
]

pub abort_actor-Sound :
    (spawned : Bool) (id : TaskId) (st : Registry)
    → IsSound st
    → IsSound (abort_actor spawned id st)
unfolding abort_actor
abort_actor-Sound spawned id st m = abort_claim-Sound spawned id st _ m refl

owner_first :
    (f : Claim → Bool) (c : Claim) (st : Registry)
    → find_claim c.id st.joins ≡ some c
    → tally f (c ∷ drop_claim c.id st.joins) ≡ tally f st.joins
unfolding tally
owner_first f c st h = omega (arith, tally-drop_claim c.id c f st.joins h)

-- The commit of an owner that has left the list.
settle-Sound :
    (delivers : OutcomeTx → Bool) (c : Claim) (result : JoinResult) (joins : List Claim)
    (st : Registry)
    → joins ≡ st.joins
    → SoundWith (c ∷ joins) st
    → IsSound (finish_removal delivers c result st)
settle-Sound delivers c result joins st e m =
    reorder-Sound joins _ (finish_removal delivers c result st)
      (λ f. ap (tally f) (finish_removal-joins delivers c result st ∙ sym e))
      (finish_removal-Sound delivers c result joins st m)

finish_claim-Sound :
    (delivers : OutcomeTx → Bool) (id : TaskId) (result : JoinResult) (st : Registry)
    (found : Option Claim)
    → IsSound st
    → find_claim id st.joins ≡ found
    → IsSound (finish_claim delivers result st found)
finish_claim-Sound delivers id result st none m h = m
finish_claim-Sound delivers id result st (some c) m h =
    let here = ap (λ k. find_claim k st.joins) (find_claim_id id c st.joins h) ∙ h in
    settle-Sound delivers c result (drop_claim c.id st.joins)
      (record st { joins = drop_claim c.id st.joins }) refl
      (reorder-Sound st.joins (c ∷ drop_claim c.id st.joins) st (λ f. owner_first f c st here) m)

pub finish_join-Sound :
    (delivers : OutcomeTx → Bool) (id : TaskId) (result : JoinResult) (st : Registry)
    → IsSound st
    → IsSound (finish_join delivers id result st)
unfolding finish_join
finish_join-Sound delivers id result st m = finish_claim-Sound delivers id result st _ m refl

-- The physical exit of an attempt in the reaper.
pub exit-Sound :
    (id : TaskId) (release : Latch) (output : ℕ) (poisoned : Bool) (st : Registry)
    → IsSound st
    → IsSound (record st { reaper = complete_physical id release output poisoned st.reaper })
exit-Sound id release output poisoned st m =
    let kept = complete_physical-Kept id release output poisoned st.reaper m.4 in
    let less : (q : Test) → _ = λ q. omega (arith, kept.1 (λ i name latch. q i name)) in
    (
      m.0,
      m.1,
      fewer-IsExclusive m.2 less,
      Within-mono st.max_registered_tasks _ _ m.3 (less any),
      kept.0,
    )

cleanup_claimed-Sound :
    (delivers : OutcomeTx → Bool) (ready : Option JoinResult) (st : Registry)
    (claimed : Option (Claim × Registry))
    → IsSound st
    → ClaimSound st.joins st claimed
    → IsSound (cleanup_claimed delivers ready st claimed)
cleanup_claimed-Sound delivers none st none m h = m
cleanup_claimed-Sound delivers (some result) st none m h = m
cleanup_claimed-Sound delivers (some result) st (some (c, s)) m h =
    settle-Sound delivers c result st.joins s (sym h.1) h.0
cleanup_claimed-Sound delivers none st (some (c, s)) m h = spawn-Sound c st s h.0 h.1

pub cleanup_completed_task-Sound :
    (delivers : OutcomeTx → Bool) (ready : Option JoinResult) (id : TaskId) (st : Registry)
    → IsSound st
    → IsSound (cleanup_completed_task delivers ready id st)
unfolding cleanup_completed_task
cleanup_completed_task-Sound delivers ready id st m =
    cleanup_claimed-Sound delivers ready st _ m (claim_registered-Sound id st.joins st m)
