-- ===== src/Registry/Claiming.antt =====
-- src/core/registry/removal/join.rs: the claim of a registered entry and the invariant.
use taskvisor.Prelude.{
  suc, ◌+◌, ◌≤◌, Bool, false, Option, none, some, List, [], ◌∷◌, ◌++◌, ◌≡◌, refl, ap, sym, ◌∙◌, inl,
  inr, Map, lookup, insert, lookup-insert, insert-IsMap, insert_at, Within-mono, one, tally,
  tally-insert_old, tally-snoc, arith,
}
use taskvisor.Slot.{TaskId}
use taskvisor.Controller.State.{Name}
use taskvisor.Registry.Reaper.{ReaperRecord}
use taskvisor.Registry.State.{
  Handle, EntryState, registered, removing, Entry, PendingJoins, Claim, Registry, count_of,
  inc_with_name,
}
use taskvisor.Registry.Removal.{claim_state, claim_entry, claim_registered}
use taskvisor.Registry.Soundness.{
  Test, is_registered, is_removing, of_claim, unaborted, any, of_id, of_name, alive, IsIndexed,
  IsOwned, IsExclusive, SoundWith,
}

pub some-injective : {A : Type 0} {a b : A} → some a ≡ some b → a ≡ b
some-injective h = cc

-- What does not add attempts keeps them apart.
pub fewer-IsExclusive :
    {tasks tasks' : Map Entry} {joins joins' : List Claim} {records records' : List ReaperRecord}
    → IsExclusive tasks joins records
    → ((q : Test) → alive q tasks' joins' records' ≤ alive q tasks joins records)
    → IsExclusive tasks' joins' records'
fewer-IsExclusive m less = record {
  one_name = λ n. omega (arith, m.one_name n, less (of_name n));
  one_task = λ id. omega (arith, m.one_task id, less (of_id id));
}

module _ (id : TaskId) (e : Entry) (next : EntryState) (tasks : Map Entry)
    (here : lookup id tasks ≡ some e) where
  replace-IsIndexed :
      (by_name : Map TaskId)
      → IsIndexed tasks by_name
      → IsIndexed (insert id (record e { state = next }) tasks) by_name
  replace-IsIndexed by_name m = record {
    unique = insert-IsMap id _ tasks m.unique;
    unique_names = m.unique_names;
    named = λ j f h. elim (insert_at id j (record e { state = next }) tasks) [
      | inl (same, found) ↦
          (let f' = some-injective (sym found ∙ h) in
            let old = m.named id e here in
            ap (λ x. lookup x.name by_name) (sym f') ∙ old ∙ ap some same)
      | inr (other, found) ↦ m.named j f (sym found ∙ h)
    ];
    known = λ name j h.
        let (f, f_here, f_name) = m.known name j h in
        elim (insert_at id j (record e { state = next }) tasks) [
          | inl (same, found) ↦
              (let f' = some-injective (sym here ∙ ap (λ k. lookup k tasks) same ∙ f_here) in
                (record e { state = next }, found, ap (λ x. x.name) f' ∙ f_name))
          | inr (other, found) ↦ (f, found ∙ f_here, f_name)
        ];
  }

module _ (id : TaskId) (name : Name) (handle : Handle) (tasks : Map Entry) (joins : List Claim)
    (here : lookup id tasks ≡ some (record { name = name; state = registered handle })) where
  abbrev claimed : Map Entry
  claimed = insert id (record { name = name; state = removing handle.completion }) tasks

  abbrev claim : Claim
  claim = record { id = id; name = name; handle = handle; aborted = false }

  claim-tally :
      (q : Test)
      → (tally (is_removing q) claimed ≡ tally (is_removing q) tasks + one (q id name))
        × (tally (is_registered q) claimed + one (q id name) ≡ tally (is_registered q) tasks)
  claim-tally q =
      let old : Entry = record { name = name; state = registered handle } in
      let new : Entry = record { name = name; state = removing handle.completion } in
      omega (
        arith,
        tally-insert_old (is_removing q) id new old tasks here,
        tally-insert_old (is_registered q) id new old tasks here,
      )

  claim-IsOwned :
      (pending : PendingJoins)
      → IsOwned tasks joins pending.counts
      → IsOwned claimed (claim ∷ joins) (inc_with_name id name pending).counts
  unfolding inc_with_name tally
  claim-IsOwned pending m = record {
    unique_counts = insert-IsMap id _ pending.counts m.unique_counts;
    owners = λ q. omega (arith, m.owners q, claim-tally q);
    pending = λ j. ground (
      arith,
      m.pending j,
      m.pending id,
      lookup-insert id j (suc (count_of (lookup id pending.counts))) pending.counts,
    );
    positive = λ j n h. ground (
      arith,
      m.positive j n,
      h,
      lookup-insert id j (suc (count_of (lookup id pending.counts))) pending.counts,
    );
  }

  alive-claim :
      (q : Test) (records : List ReaperRecord)
      → alive q claimed (claim ∷ joins) records ≡ alive q tasks joins records
  unfolding tally
  alive-claim q records = omega (arith, claim-tally q)

  claim-IsExclusive :
      (records : List ReaperRecord)
      → IsExclusive tasks joins records
      → IsExclusive claimed (claim ∷ joins) records
  claim-IsExclusive records m = record {
    one_name = λ n. omega (arith, m.one_name n, alive-claim (of_name n) records);
    one_task = λ j. omega (arith, m.one_task j, alive-claim (of_id j) records);
  }

-- A claim that is taken is the next owner.
abbrev pub ClaimSound : List Claim → Registry → Option (Claim × Registry) → Type 0
ClaimSound joins st none = Unit
ClaimSound joins st (some (c, s)) = SoundWith (c ∷ joins) s × (s.joins ≡ st.joins)

claim_state-Sound :
    (id : TaskId) (name : Name) (state : EntryState) (joins : List Claim) (st : Registry)
    → SoundWith joins st
    → lookup id st.tasks ≡ some (record { name = name; state = state })
    → ClaimSound joins st (claim_state id (record { name = name; state = state }) st state)
claim_state-Sound id name (removing latch) joins st m e = tt
claim_state-Sound id name (registered handle) joins st m e = (
  (
    replace-IsIndexed id _ (removing handle.completion) st.tasks e st.by_name m.0,
    claim-IsOwned id name handle st.tasks joins e st.pending m.1,
    claim-IsExclusive id name handle st.tasks joins e st.reaper.records m.2,
    Within-mono st.max_registered_tasks _ _ m.3
        (omega (arith, alive-claim id name handle st.tasks joins e any st.reaper.records)),
    m.4,
  ),
  refl,
)

claim_entry-Sound :
    (id : TaskId) (joins : List Claim) (st : Registry) (found : Option Entry)
    → SoundWith joins st
    → lookup id st.tasks ≡ found
    → ClaimSound joins st (claim_entry id st found)
claim_entry-Sound id joins st none m e = tt
claim_entry-Sound id joins st (some entry) m e =
    claim_state-Sound id entry.name entry.state joins st m e

pub claim_registered-Sound :
    (id : TaskId) (joins : List Claim) (st : Registry)
    → SoundWith joins st
    → ClaimSound joins st (claim_registered id st)
unfolding claim_registered
claim_registered-Sound id joins st m = claim_entry-Sound id joins st _ m refl

-- The order of the owners does not matter.
pub reorder-Sound :
    (old new : List Claim) (st : Registry)
    → ((f : Claim → Bool) → tally f new ≡ tally f old)
    → SoundWith old st
    → SoundWith new st
reorder-Sound old new st e m = (
  m.0,
  record {
    unique_counts = m.1.unique_counts;
    owners = λ q. e (of_claim q) ∙ m.1.owners q;
    pending = λ id. m.1.pending id ∙ sym (e (of_claim (of_id id)));
    positive = m.1.positive;
  },
  record {
    one_name = λ n. omega (arith, m.2.one_name n, e (unaborted (of_name n)));
    one_task = λ id. omega (arith, m.2.one_task id, e (unaborted (of_id id)));
  },
  Within-mono st.max_registered_tasks _ _ m.3 (omega (arith, e (unaborted any))),
  m.4,
)

-- A claim that goes to its detached owner.
pub spawn-Sound :
    (c : Claim) (st s : Registry)
    → SoundWith (c ∷ st.joins) s
    → s.joins ≡ st.joins
    → SoundWith (s.joins ++ c ∷ []) s
unfolding tally
spawn-Sound c st s m e =
    reorder-Sound (c ∷ st.joins) (s.joins ++ c ∷ []) s
      (λ f. omega (arith, tally-snoc f s.joins c, ap (tally f) e)) m
