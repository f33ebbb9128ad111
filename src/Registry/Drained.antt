-- ===== src/Registry/Drained.antt =====
-- src/core/registry/removal/join.rs and listener.rs: the end of a shutdown, once every owner has
-- finished.
use taskvisor.Prelude.{
  ℕ, ◌≤◌, Bool, Option, none, some, List, [], ◌∷◌, ◌==◌, ◌≡◌, refl, ap, ◌∙◌, length, map, Map,
  lookup, tally-remove, tally, tally-length, arith,
}
use taskvisor.Controller.State.{OutcomeTx}
use taskvisor.Registry.State.{EntryState, registered, removing, Entry, Claim, Registry}
use taskvisor.Registry.Terminal.{
  JoinResult, Report, commit_state, commit_entry, commit, finish_removal,
}
use taskvisor.Registry.Join.{find_claim, drop_claim, finish_claim, finish_join, cancel_all_within}
use taskvisor.Registry.Background.{Move, finishes, move, play}
use taskvisor.Registry.Soundness.{is_registered, of_claim, any, IsSound}
use taskvisor.Registry.Finishing.{finish_removal-joins}
use taskvisor.Registry.Owning.{finish_join-Sound}
use taskvisor.Registry.Commanding.{cancel_all_within-Sound}
use taskvisor.Registry.Presence.{tally-phases}
use taskvisor.Registry.Draining.{cancel_all_within-registered}

commit_state-registered :
    (delivers : OutcomeTx → Bool) (p : Report) (st : Registry) (e : Entry) (state : EntryState)
    → lookup p.id st.tasks ≡ some e
    → tally (is_registered any) (commit_state delivers p st e state).tasks
      ≤ tally (is_registered any) st.tasks
commit_state-registered delivers p st e (registered handle) h = omega arith
commit_state-registered delivers p st e (removing latch) h =
    omega (arith, tally-remove (is_registered any) p.id e st.tasks h)

commit_entry-registered :
    (delivers : OutcomeTx → Bool) (p : Report) (st : Registry) (found : Option Entry)
    → lookup p.id st.tasks ≡ found
    → tally (is_registered any) (commit_entry delivers p st found).tasks
      ≤ tally (is_registered any) st.tasks
commit_entry-registered delivers p st none h = omega arith
commit_entry-registered delivers p st (some e) h = commit_state-registered delivers p st e e.state h

finish_removal-registered :
    (delivers : OutcomeTx → Bool) (c : Claim) (result : JoinResult) (st : Registry)
    → tally (is_registered any) (finish_removal delivers c result st).tasks
      ≤ tally (is_registered any) st.tasks
unfolding finish_removal commit
finish_removal-registered delivers c result st = commit_entry-registered delivers _ _ _ refl

find_head : (c : Claim) (rest : List Claim) → find_claim c.id (c ∷ rest) ≡ some c
unfolding find_claim
find_head c rest = ground arith

drop_head : (c : Claim) (rest : List Claim) → drop_claim c.id (c ∷ rest) ≡ rest
unfolding drop_claim
drop_head c rest = ground arith

-- The first owner finishes.
module _ (delivers : OutcomeTx → Bool) (c : Claim) (rest : List Claim) (result : JoinResult)
    (st : Registry) (first_owner : st.joins ≡ c ∷ rest) where
  finish_first :
      finish_join delivers c.id result st
      ≡ finish_removal delivers c result (record st { joins = drop_claim c.id st.joins })
  unfolding finish_join
  finish_first =
      ap (finish_claim delivers result st) (ap (find_claim c.id) first_owner ∙ find_head c rest)

  finish_first-joins : (finish_join delivers c.id result st).joins ≡ rest
  finish_first-joins =
      ap (λ s. s.joins) finish_first
      ∙ finish_removal-joins delivers c result (record st { joins = drop_claim c.id st.joins })
      ∙ ap (drop_claim c.id) first_owner
      ∙ drop_head c rest

  finish_first-registered :
      tally (is_registered any) (finish_join delivers c.id result st).tasks
      ≤ tally (is_registered any) st.tasks
  finish_first-registered = omega (
    arith,
    ap (λ s. tally (is_registered any) s.tasks) finish_first,
    finish_removal-registered delivers c result (record st { joins = drop_claim c.id st.joins }),
  )

abbrev pub finish_all : (Claim → JoinResult) → List Claim → List Move
finish_all result = map (λ c. finishes c.id (result c))

-- Nothing is left: no owner and no registered entry.
abbrev IsIdle : Registry → Type 0
IsIdle st = IsSound st × (st.joins ≡ []) × (tally (is_registered any) st.tasks ≡ 0)

finish_all-Idle :
    (delivers : OutcomeTx → Bool) (result : Claim → JoinResult) (joins : List Claim) (st : Registry)
    → IsSound st
    → st.joins ≡ joins
    → tally (is_registered any) st.tasks ≡ 0
    → IsIdle (play delivers (finish_all result joins) st)
unfolding play move
finish_all-Idle delivers result [] st m e none_left = (m, e, none_left)
finish_all-Idle delivers result (c ∷ rest) st m e none_left =
    finish_all-Idle delivers result rest (finish_join delivers c.id (result c) st)
      (finish_join-Sound delivers c.id (result c) st m)
      (finish_first-joins delivers c rest (result c) st e)
      (omega (arith, none_left, finish_first-registered delivers c rest (result c) st e))

no_length : {A : Type 0} → (list : List A) → length list ≡ 0 → list ≡ []
no_length [] h = refl
no_length (a ∷ list) h = ground arith

no_keys : {V : Type 0} → (m : Map V) → ((k : ℕ) (v : V) → lookup k m ≡ some v → 1 ≤ 0) → m ≡ []
unfolding lookup
no_keys [] h = refl
no_keys ((k, v) ∷ m) h = ground (arith, h k v (ground arith))

idle_empty :
    (st : Registry) → IsIdle st → (st.tasks ≡ []) × (st.by_name ≡ []) × (st.pending.counts ≡ [])
unfolding tally lookup
idle_empty st (m, e, none_left) =
    let owners = m.1.owners any in
    let no_tasks : st.tasks ≡ [] = no_length st.tasks (
      omega (
        arith,
        none_left,
        owners,
        ap (tally (of_claim any)) e,
        tally-phases any st.tasks,
        tally-length st.tasks,
      )) in
    (
      no_tasks,
      no_keys st.by_name (λ name id h.
          let known = m.0.known name id h in ground (arith, known.1, ap (lookup id) no_tasks)),
      no_keys st.pending.counts (λ id n h. ground (
        arith,
        m.1.positive id n h,
        m.1.pending id,
        h,
        ap (λ joins. tally (of_claim (λ i name. i == id)) joins) e,
      )),
    )

-- The removal of everything, and then the end of every owner.
abbrev pub after_shutdown : (OutcomeTx → Bool) → (Claim → JoinResult) → Registry → Registry
after_shutdown delivers result st =
    let claimed = cancel_all_within st in play delivers (finish_all result claimed.joins) claimed

-- From a sound registry, the removal of everything and then the end of every owner, with whatever
-- results their actors give, leave no entry, no name and no pending join.
pub shutdown_drains :
    (delivers : OutcomeTx → Bool) (result : Claim → JoinResult) (st : Registry)
    → IsSound st
    → ((after_shutdown delivers result st).tasks ≡ [])
      × ((after_shutdown delivers result st).by_name ≡ [])
      × ((after_shutdown delivers result st).pending.counts ≡ [])
shutdown_drains delivers result st m = idle_empty (after_shutdown delivers result st) (
    finish_all-Idle delivers result (cancel_all_within st).joins (cancel_all_within st)
      (cancel_all_within-Sound st m) refl (cancel_all_within-registered st m))
