-- ===== src/Registry/Draining.antt =====
-- src/core/registry/removal/join.rs: the removal of everything at shutdown.
use taskvisor.Prelude.{
  true, false, Option, none, some, List, [], ◌∷◌, ◌++◌, ◌==◌, ◌≡◌, refl, ap, sym, ◌∙◌, inl, inr,
  contains, Map, lookup, insert_at, tally, tally_none, Bool-cases, arith,
}
use taskvisor.Slot.{TaskId}
use taskvisor.Controller.State.{Name}
use taskvisor.Registry.State.{EntryState, registered, removing, Entry, Claim, Registry}
use taskvisor.Registry.Removal.{claim_state, claim_entry, claim_registered}
use taskvisor.Registry.Join.{push_claimed, claim_all, keys, cancel_all_within}
use taskvisor.Registry.Soundness.{phase, is_registered, any, IsSound}
use taskvisor.Registry.Claiming.{some-injective}
use taskvisor.Registry.Commanding.{cancel_all_within-Sound}

-- What a claim of `id` leaves registered: nothing under `id`, and nothing new.
abbrev LeftBy : TaskId → Registry → Registry → Type 0
LeftBy id st s =
    (j : TaskId) (e : Entry)
    → lookup j s.tasks ≡ some e
    → phase e.state ≡ false
    → ((id == j) ≡ false) × (lookup j st.tasks ≡ some e)

abbrev ClaimLeft : TaskId → Registry → Option (Claim × Registry) → Type 0
ClaimLeft id st none = LeftBy id st st
ClaimLeft id st (some (c, s)) = LeftBy id st s

claim_state-Left :
    (id : TaskId) (name : Name) (state : EntryState) (st : Registry)
    → lookup id st.tasks ≡ some (record { name = name; state = state })
    → ClaimLeft id st (claim_state id (record { name = name; state = state }) st state)
claim_state-Left id name (removing latch) st h = λ j e here running. elim (Bool-cases (id == j)) [
  | inl same ↦
      (let back : id ≡ j = ground arith in
        ground (arith, h, here, running, ap (λ k. lookup k st.tasks) back))
  | inr other ↦ (other, here)
]
claim_state-Left id name (registered handle) st h = λ j e here running.
    elim (insert_at id j (record { name = name; state = removing handle.completion }) st.tasks) [
      | inl (same, new) ↦
          ground (arith, running, ap phase (ap (λ x. x.state) (some-injective (sym new ∙ here))))
      | inr (other, old) ↦ (other, sym old ∙ here)
    ]

claim_entry-Left :
    (id : TaskId) (st : Registry) (found : Option Entry)
    → lookup id st.tasks ≡ found
    → ClaimLeft id st (claim_entry id st found)
claim_entry-Left id st none h = λ j e here running. elim (Bool-cases (id == j)) [
  | inl same ↦
      (let back : id ≡ j = ground arith in
        ground (arith, h, here, ap (λ k. lookup k st.tasks) back))
  | inr other ↦ (other, here)
]
claim_entry-Left id st (some entry) h = claim_state-Left id entry.name entry.state st h

claim_registered-Left : (id : TaskId) (st : Registry) → ClaimLeft id st (claim_registered id st)
unfolding claim_registered
claim_registered-Left id st = claim_entry-Left id st (lookup id st.tasks) refl

-- The same for all identities of a list.
abbrev AllLeft : List TaskId → Registry → List Claim × Registry → Type 0
AllLeft ids st out =
    (j : TaskId) (e : Entry)
    → lookup j out.1.tasks ≡ some e
    → phase e.state ≡ false
    → (contains j ids ≡ false) × (lookup j st.tasks ≡ some e)

push_claimed-Left :
    (id : TaskId) (ids : List TaskId) (claims : List Claim) (st : Registry)
    (claimed : Option (Claim × Registry))
    → ((more : List Claim) (s : Registry) → AllLeft ids s (claim_all ids more s))
    → ClaimLeft id st claimed
    → AllLeft (id ∷ ids) st (push_claimed (claim_all ids) claims st claimed)
unfolding contains
push_claimed-Left id ids claims st none rest left j e here running =
    let later = rest claims st j e here running in
    let now = left j e later.1 running in (ground (arith, later.0, now.0), now.1)
push_claimed-Left id ids claims st (some (c, s)) rest left j e here running =
    let later = rest (claims ++ c ∷ []) s j e here running in
    let now = left j e later.1 running in (ground (arith, later.0, now.0), now.1)

claim_all-Left :
    (ids : List TaskId) (claims : List Claim) (st : Registry)
    → AllLeft ids st (claim_all ids claims st)
unfolding claim_all contains
claim_all-Left [] claims st = λ j e here running. (refl, here)
claim_all-Left (id ∷ ids) claims st =
    push_claimed-Left id ids claims st (claim_registered id st) (claim_all-Left ids)
      (claim_registered-Left id st)

contains-keys :
    (id : TaskId) (e : Entry) (tasks : Map Entry)
    → lookup id tasks ≡ some e
    → contains id (keys tasks) ≡ true
unfolding contains lookup
contains-keys id e [] h = ground arith
contains-keys id e ((i, w) ∷ tasks) h = ground (arith, contains-keys id e tasks)

pub cancel_all_within-registered :
    (st : Registry) → IsSound st → tally (is_registered any) (cancel_all_within st).tasks ≡ 0
unfolding cancel_all_within
cancel_all_within-registered st m =
    tally_none (is_registered any) (claim_all (keys st.tasks) [] st).1.tasks
      (cancel_all_within-Sound st m).0.unique
      (λ id e here. elim (Bool-cases (phase e.state)) [
        | inl leaving ↦ ground (arith, leaving)
        | inr running ↦
            (let left = claim_all-Left (keys st.tasks) [] st id e here running in
              ground (arith, left.0, contains-keys id e st.tasks left.1))
      ])
