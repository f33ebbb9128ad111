-- ===== src/Registry/Batch.antt =====
-- src/core/registry/admission/batch.rs: the batch command and the invariant.
use taskvisor.Prelude.{
  ◌+◌, Bool, false, ◌||◌, List, [], ◌∷◌, ◌==◌, ◌≡◌, refl, ◌∙◌, inl, inr, length, contains, All,
  lookup-insert, Within, Within-mono, Bool-cases, arith,
}
use taskvisor.Slot.{TaskId}
use taskvisor.Controller.State.{Name, OutcomeTx}
use taskvisor.Registry.State.{Registry, AddItem, registered_limit_exceeded, conflicts}
use taskvisor.Registry.Background.{Move, play}
use taskvisor.Registry.Admission.{
  AddReply, register_member, scan, register_all, check_batch, accept_batch, recheck_batch,
  spawn_and_register_batch,
}
use taskvisor.Registry.Soundness.{IsSound, any, alive}
use taskvisor.Registry.Admitting.{IsFresh, insert-Sound, limit_room, conflicts_parts, alive-insert}
use taskvisor.Registry.Adding.{play-Sound}

-- Tasks that the registry does not know, each with its own identity.
abbrev pub AllFresh : List AddItem → Registry → Type 0
AllFresh [] st = Unit
AllFresh (item ∷ items) st =
    IsFresh item.id st × All (λ other. (item.id == other.id) ≡ false) items × AllFresh items st

pub AllFresh-register :
    (item : AddItem) (items : List AddItem) (st : Registry)
    → All (λ other. (item.id == other.id) ≡ false) items
    → AllFresh items st
    → AllFresh items (register_member item st)
AllFresh-register item [] st apart f = tt
AllFresh-register item (next ∷ items) st apart f = (
  (lookup-insert item.id next.id _ st.tasks ∙ simp (apart.0) f.0.0, f.0.1),
  f.1,
  AllFresh-register item items st apart.1 f.2,
)

conflicts-register :
    (item : AddItem) (st : Registry) (name : Name)
    → conflicts (register_member item st) name ≡ (item.name == name || conflicts st name)
unfolding conflicts
conflicts-register item st name = ground (arith, lookup-insert item.name name item.id st.by_name)

-- What the names before an item are does not matter, but which they are.
scan-register :
    (item : AddItem) (items : List AddItem) (st : Registry) (before after : List Name)
    → ((name : Name) → (item.name == name || contains name before) ≡ contains name after)
    → scan (register_member item st) before items ≡ scan st after items
unfolding scan contains
scan-register item [] st before after same = refl
scan-register item (next ∷ items) st before after same = ground (
  arith,
  same next.name,
  conflicts-register item st next.name,
  scan-register item items st (next.name ∷ before) (next.name ∷ after)
      (λ name. ground (arith, same name)),
)

register_all-Sound :
    (items : List AddItem) (st : Registry)
    → IsSound st
    → AllFresh items st
    → scan st [] items ≡ []
    → Within st.max_registered_tasks (alive any st.tasks st.joins st.reaper.records + length items)
    → IsSound (register_all items st)
unfolding register_all scan contains
register_all-Sound [] st m f e room = m
register_all-Sound (item ∷ items) st m f e room =
    let apart : conflicts st item.name ≡ false = ground arith in
    let rest : scan st (item.name ∷ []) items ≡ [] = ground (arith, apart) in
    let free = conflicts_parts st item.name apart in
    let one_more = alive-insert item st m f.0 free.0 free.1 any in
    register_all-Sound items (register_member item st)
      (insert-Sound item st m f.0 free.0 free.1
        (Within-mono st.max_registered_tasks _ _ room (omega arith)))
      (AllFresh-register item items st f.1 f.2)
      (scan-register item items st [] (item.name ∷ []) (λ name. ground arith) ∙ rest)
      (Within-mono st.max_registered_tasks _ _ room (omega (arith, one_more)))

check_batch-Sound :
    (items : List AddItem) (st : Registry) (next : Registry → AddReply × Registry)
    (conflicting : List TaskId)
    → IsSound st
    → (conflicting ≡ []
        → registered_limit_exceeded st (length st.tasks) (length items) ≡ false
        → IsSound (next st).1)
    → IsSound (check_batch items st next conflicting).1
check_batch-Sound items st next (id ∷ ids) m then_sound = m
check_batch-Sound items st next [] m then_sound =
    elim (Bool-cases (registered_limit_exceeded st (length st.tasks) (length items))) [
      | inl full ↦ simp (full) m
      | inr fits ↦ simp (fits) (then_sound refl fits)
    ]

pub spawn_and_register_batch-Sound :
    (delivers : OutcomeTx → Bool) (items : List AddItem) (moves : List Move) (st : Registry)
    → IsSound st
    → AllFresh items (play delivers moves st)
    → IsSound (spawn_and_register_batch delivers items moves st).1
unfolding spawn_and_register_batch
spawn_and_register_batch-Sound delivers items moves st m fresh =
    let current = play delivers moves st in
    let sound = play-Sound delivers moves st m in
    check_batch-Sound items st (recheck_batch delivers items moves) (scan st [] items) m
      (λ none_taken fits.
        check_batch-Sound items current (accept_batch items) (scan current [] items) sound
          (λ apart room.
            register_all-Sound items current sound fresh apart
              (limit_room current (length items) sound room)))
