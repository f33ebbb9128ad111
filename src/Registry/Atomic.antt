-- ===== src/Registry/Atomic.antt =====
-- src/core/registry/admission/batch.rs: a batch is admitted as a whole or not at all.
use taskvisor.Prelude.{
  Bool, true, false, some, List, [], ◌∷◌, ◌==◌, ◌≡◌, refl, ◌∙◌, ◌⊎◌, inl, inr, if◌then◌else◌,
  length, All, lookup, lookup-insert, lookup-insert_self, arith,
}
use taskvisor.Slot.{TaskId}
use taskvisor.Controller.State.{OutcomeTx, RuntimeError, resource_limit}
use taskvisor.Registry.State.{registered, Registry, AddItem, registered_limit_exceeded}
use taskvisor.Registry.Background.{Move, play}
use taskvisor.Registry.Admission.{
  AddReply, added, refused, reject_all, handle_of, register_member, scan, register_all, check_batch,
  accept_batch, recheck_batch, spawn_and_register_batch,
}
use taskvisor.Registry.Batch.{AllFresh, AllFresh-register}

-- The registered entry of an admitted item.
abbrev pub IsMember : Registry → AddItem → Type 0
IsMember st item =
    (lookup item.id st.tasks
      ≡ some (record { name = item.name; state = registered (handle_of item) }))

abbrev pub SameMembers : Registry → Registry → Type 0
SameMembers s st = (s.tasks ≡ st.tasks) × (s.by_name ≡ st.by_name) × (s.scheduled ≡ st.scheduled)

lookup-register_all :
    (k : TaskId) (items : List AddItem) (st : Registry)
    → All (λ other. (k == other.id) ≡ false) items
    → lookup k (register_all items st).tasks ≡ lookup k st.tasks
unfolding register_all
lookup-register_all k [] st apart = refl
lookup-register_all k (item ∷ items) st apart =
    lookup-register_all k items (register_member item st) apart.1
    ∙ lookup-insert item.id k _ st.tasks
    ∙ ground (arith, apart.0)

register_all-members :
    (items : List AddItem) (st : Registry)
    → AllFresh items st
    → All (IsMember (register_all items st)) items
unfolding register_all
register_all-members [] st f = tt
register_all-members (item ∷ items) st f = (
  lookup-register_all item.id items (register_member item st) f.1
      ∙ lookup-insert_self item.id _ st.tasks,
  register_all-members items (register_member item st) (AllFresh-register item items st f.1 f.2),
)

-- What a reply says of the registry, where `before` and `current` are those of the two checks.
abbrev pub IsWhole : List AddItem → Registry → Registry → AddReply × Registry → Type 0
IsWhole items before current (added, s) = All (IsMember s) items
IsWhole items before current (refused error, s) = SameMembers s before ⊎ SameMembers s current

check_batch-Whole :
    (items : List AddItem) (before current st : Registry) (next : Registry → AddReply × Registry)
    (conflicting : List TaskId)
    → SameMembers st before ⊎ SameMembers st current
    → IsWhole items before current (next st)
    → IsWhole items before current (check_batch items st next conflicting)
check_batch-Whole items before current st next (id ∷ ids) same whole = same
check_batch-Whole items before current st next [] same whole =
    elim (registered_limit_exceeded st (length st.tasks) (length items))
      as (λ full. IsWhole items before current (
        if full
        then (
          refused RuntimeError.resource_limit_reached,
          reject_all (λ item. resource_limit) items st,
        )
        else next st)) [ true ↦ same | false ↦ whole ]

-- A batch of tasks that are new to the registry, and differ from each other, is admitted as a whole
-- or not at all, whatever other tasks do between its two checks: after the reply that it was added,
-- every item is a registered entry under its identity; after a refusal, the entries, the names and
-- the started actors are those from before the command or from the second check.
pub batch_all_or_nothing :
    (delivers : OutcomeTx → Bool) (items : List AddItem) (moves : List Move) (st : Registry)
    → AllFresh items (play delivers moves st)
    → IsWhole items st (play delivers moves st) (spawn_and_register_batch delivers items moves st)
unfolding spawn_and_register_batch
batch_all_or_nothing delivers items moves st fresh =
    let current = play delivers moves st in
    check_batch-Whole items st current st (recheck_batch delivers items moves) (scan st [] items)
      (inl (refl, refl, refl))
      (check_batch-Whole items st current current (accept_batch items) (scan current [] items)
        (inr (refl, refl, refl)) (register_all-members items current fresh))
