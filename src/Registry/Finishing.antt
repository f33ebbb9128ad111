-- ===== src/Registry/Finishing.antt =====
-- src/core/registry/removal/terminal.rs: the commit of a removal and the invariant.
use taskvisor.Prelude.{
  ℕ, ◌+◌, ◌≤◌, Bool, true, ◌&&◌, Option, none, some, List, ◌∷◌, ◌==◌, ◌≡◌, refl, ap, sym, ◌∙◌, inl,
  inr, Map, IsMap, lookup, remove, remove_at, remove-IsMap, Within-mono, one, tally, tally-remove,
  tally_key, tally_no_key, tally_mono, Option-cases, arith,
}
use taskvisor.Slot.{TaskId}
use taskvisor.Controller.State.{Name, OutcomeTx}
use taskvisor.Registry.Reaper.{Latch, ReaperRecord, attach_terminal}
use taskvisor.Registry.Keeping.{attach_terminal-Kept}
use taskvisor.Registry.State.{
  EntryState, registered, removing, Entry, PendingJoins, Claim, Registry, dec,
}
use taskvisor.Registry.Pending.{dec-lookup, dec-positive}
use taskvisor.Registry.Terminal.{
  JoinResult, Report, commit_state, commit_entry, commit, finish_removal, maps_to,
}
use taskvisor.Registry.Claiming.{some-injective, fewer-IsExclusive}
use taskvisor.Registry.Soundness.{
  Test, phase, is_registered, is_removing, any, alive, IsIndexed, IsOwned, SoundWith,
}

module _ (c : Claim) (joins : List Claim) (tasks : Map Entry) (counts : Map ℕ)
    (unique : IsMap tasks) (m : IsOwned tasks (c ∷ joins) counts) where
  exact : Test
  exact id name = id == c.id && name == c.name

  wanted : ℕ × Entry → Bool
  wanted entry = phase entry.1.state && entry.1.name == c.name

  one_wanted : 1 ≤ tally (λ entry. entry.0 == c.id && wanted entry) tasks
  unfolding tally exact wanted
  one_wanted =
      let below =
        tally_mono (λ entry. entry.0 == c.id && wanted entry) (is_removing exact) tasks
          (λ entry. ground arith) in
      ground (arith, below, m.owners exact)

  abbrev IsOwnerEntry : Type 0
  IsOwnerEntry =
      (latch : Latch) × (lookup c.id tasks
        ≡ some (record { name = c.name; state = removing latch }))

  owner_state :
      (name : Name) (state : EntryState)
      → lookup c.id tasks ≡ some (record { name = name; state = state })
      → IsOwnerEntry
  unfolding wanted
  owner_state name (removing latch) e =
      let k =
        tally_key wanted c.id (record { name = name; state = removing latch }) tasks unique e in
      let same : name ≡ c.name = ground (arith, one_wanted, k) in
      (latch, e ∙ ap (λ n. some (record { name = n; state = removing latch })) same)
  owner_state name (registered handle) e =
      let k =
        tally_key wanted c.id (record { name = name; state = registered handle }) tasks unique e in
      ground (arith, one_wanted, k)

  -- The entry of an owner.
  owner_entry : IsOwnerEntry
  unfolding wanted
  owner_entry = elim (Option-cases (lookup c.id tasks)) [
    | inl e ↦ ground (arith, one_wanted, tally_no_key wanted c.id tasks e)
    | inr (entry, e) ↦ owner_state entry.name entry.state e
  ]

-- Membership removal of that entry.
module _ (c : Claim) (latch : Latch) (joins : List Claim) (tasks : Map Entry)
    (here : lookup c.id tasks ≡ some (record { name = c.name; state = removing latch })) where
  removed-tally :
      (q : Test)
      → (tally (is_removing q) (remove c.id tasks) + one (q c.id c.name)
          ≡ tally (is_removing q) tasks)
        × (tally (is_registered q) (remove c.id tasks) ≡ tally (is_registered q) tasks)
  removed-tally q =
      let old : Entry = record { name = c.name; state = removing latch } in
      omega (
        arith,
        tally-remove (is_removing q) c.id old tasks here,
        tally-remove (is_registered q) c.id old tasks here,
      )

  removed-IsIndexed :
      (by_name : Map TaskId)
      → IsIndexed tasks by_name
      → IsIndexed (remove c.id tasks) (remove c.name by_name)
  removed-IsIndexed by_name m = record {
    unique = remove-IsMap c.id tasks m.unique;
    unique_names = remove-IsMap c.name by_name m.unique_names;
    named = λ j f h. elim (remove_at c.id j tasks m.unique) [
      | inl (same, gone) ↦ ground (arith, gone, h)
      | inr (other, found) ↦
          (let old = m.named j f (sym found ∙ h) in
            elim (remove_at c.name f.name by_name m.unique_names) [
              | inl (same, gone) ↦
                  (let mine = m.named c.id _ here in
                    ground (arith, other, old, mine, ap (λ n. lookup n by_name) same))
              | inr (apart, kept) ↦ kept ∙ old
            ])
    ];
    known = λ name j h. elim (remove_at c.name name by_name m.unique_names) [
      | inl (same, gone) ↦ ground (arith, gone, h)
      | inr (apart, kept) ↦
          (let (f, f_here, f_name) = m.known name j (sym kept ∙ h) in
            elim (remove_at c.id j tasks m.unique) [
              | inl (same, gone) ↦
                  (let f' = some-injective (sym here ∙ ap (λ k. lookup k tasks) same ∙ f_here) in
                    let e : c.name ≡ name = ap (λ x. x.name) f' ∙ f_name in
                    ground (arith, apart, e))
              | inr (other, found) ↦ (f, found ∙ f_here, f_name)
            ])
    ];
  }

module _ (c : Claim) (latch : Latch) (joins : List Claim) (tasks : Map Entry)
    (here : lookup c.id tasks ≡ some (record { name = c.name; state = removing latch })) where
  removed-IsOwned :
      (pending : PendingJoins)
      → IsOwned tasks (c ∷ joins) pending.counts
      → IsOwned (remove c.id tasks) joins (dec c.id pending).counts
  unfolding tally
  removed-IsOwned pending m =
      let step : (j : TaskId) → _ =
        λ j. dec-lookup c.id j pending m.unique_counts (ground (arith, m.pending c.id)) in
      record {
        unique_counts = (step 0).1;
        owners = λ q. omega (arith, m.owners q, (removed-tally c latch joins tasks here q));
        pending = λ j. omega (arith, m.pending j, (step j).0);
        positive = λ j n h. dec-positive c.id j n pending m.unique_counts m.positive h;
      }

  alive-removed :
      (q : Test) (records : List ReaperRecord)
      → alive q (remove c.id tasks) joins records ≤ alive q tasks (c ∷ joins) records
  unfolding tally
  alive-removed q records = omega (arith, removed-tally c latch joins tasks here q)

-- The state after the membership removal, and whatever was reported.
terminal-Sound :
    (c : Claim) (latch : Latch) (joins : List Claim) (bundle : ℕ) (state : Option Latch)
    (report : Latch) (st : Registry)
    → SoundWith (c ∷ joins) st
    → lookup c.id st.tasks ≡ some (record { name = c.name; state = removing latch })
    → SoundWith joins (record st {
      tasks = remove c.id st.tasks;
      by_name = remove c.name st.by_name;
      pending = dec c.id st.pending;
      reaper = attach_terminal c.id bundle state report st.reaper;
    })
terminal-Sound c latch joins bundle state report st m here =
    let kept = attach_terminal-Kept c.id bundle state report st.reaper m.4 in
    let less : (q : Test) → _ = λ q. omega (
      arith,
      alive-removed c latch joins st.tasks here q st.reaper.records,
      kept.1 (λ id name release. q id name),
    ) in
    (
      removed-IsIndexed c latch joins st.tasks here st.by_name m.0,
      removed-IsOwned c latch joins st.tasks here st.pending m.1,
      fewer-IsExclusive m.2 less,
      Within-mono st.max_registered_tasks _ _ m.3 (less any),
      kept.0,
    )

maps_to_self : (found : Option TaskId) (id : TaskId) → found ≡ some id → maps_to found id ≡ true
maps_to_self found id h = ap (λ o. maps_to o id) h ∙ ground arith

-- The commit of an owner, which finds its removing entry.
pub finish_removal-Sound :
    (delivers : OutcomeTx → Bool) (c : Claim) (result : JoinResult) (joins : List Claim)
    (st : Registry)
    → SoundWith (c ∷ joins) st
    → SoundWith joins (finish_removal delivers c result st)
unfolding finish_removal commit
finish_removal-Sound delivers c result joins st m =
    let (latch, here) = owner_entry c joins st.tasks st.pending.counts m.0.unique m.1 in
    let mine = m.0.named c.id _ here in
    simp (here, maps_to_self _ _ mine)
      (terminal-Sound c latch joins c.handle.bundle (some latch) c.handle.completion st m here)

commit_entry-joins :
    (delivers : OutcomeTx → Bool) (p : Report) (st : Registry) (found : Option Entry)
    → (commit_entry delivers p st found).joins ≡ st.joins
commit_entry-joins delivers p st none = refl
commit_entry-joins delivers p st (some e) = commit_state-joins e.state
  where
    commit_state-joins :
        (state : EntryState) → (commit_state delivers p st e state).joins ≡ st.joins
    commit_state-joins (registered handle) = refl
    commit_state-joins (removing latch) = refl

pub finish_removal-joins :
    (delivers : OutcomeTx → Bool) (c : Claim) (result : JoinResult) (st : Registry)
    → (finish_removal delivers c result st).joins ≡ st.joins
unfolding finish_removal commit
finish_removal-joins delivers c result st = commit_entry-joins delivers _ _ _
