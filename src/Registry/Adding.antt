-- ===== src/Registry/Adding.antt =====
-- src/core/registry/admission/single.rs and batch.rs: the add commands and the invariant.
use taskvisor.Prelude.{Bool, Option, none, some, List, [], ◌∷◌, inl, inr, length, Bool-cases}
use taskvisor.Controller.State.{OutcomeTx, RejectionKind}
use taskvisor.Registry.State.{Registry, AddItem, registered_limit_exceeded, conflicts}
use taskvisor.Registry.Background.{Move, move, play}
use taskvisor.Registry.Admission.{validate, admit, recheck, spawn_and_register}
use taskvisor.Registry.Soundness.{IsSound}
use taskvisor.Registry.Owning.{abort_actor-Sound, finish_join-Sound, exit-Sound}
use taskvisor.Registry.Commanding.{cancel_all_within-Sound}
use taskvisor.Registry.Admitting.{IsFresh, insert-Sound, limit_room, conflicts_parts}

pub move-Sound :
    (delivers : OutcomeTx → Bool) (next : Move) (st : Registry)
    → IsSound st
    → IsSound (move delivers next st)
unfolding move
move-Sound delivers (Move.aborts spawned id) st m = abort_actor-Sound spawned id st m
move-Sound delivers (Move.finishes id result) st m = finish_join-Sound delivers id result st m
move-Sound delivers (Move.exits id release output poisoned) st m =
    exit-Sound id release output poisoned st m
move-Sound delivers Move.cancels_all st m = cancel_all_within-Sound st m

pub play-Sound :
    (delivers : OutcomeTx → Bool) (moves : List Move) (st : Registry)
    → IsSound st
    → IsSound (play delivers moves st)
unfolding play
play-Sound delivers [] st m = m
play-Sound delivers (next ∷ moves) st m =
    play-Sound delivers moves (move delivers next st) (move-Sound delivers next st m)

admit-Sound :
    (delivers : OutcomeTx → Bool) (item : AddItem) (st : Registry)
    → IsSound st
    → IsFresh item.id st
    → IsSound (admit delivers item st (validate item.name st)).1
unfolding validate
admit-Sound delivers item st m fresh = elim (Bool-cases (conflicts st item.name)) [
  | inl taken ↦ simp (taken) m
  | inr apart ↦ elim (Bool-cases (registered_limit_exceeded st (length st.tasks) 1)) [
    | inl full ↦ simp (apart, full) m
    | inr open_room ↦
        (let free = conflicts_parts st item.name apart in
          simp (apart, open_room)
            (insert-Sound item st m fresh free.0 free.1 (limit_room st 1 m open_room)))
  ]
]

recheck-Sound :
    (delivers : OutcomeTx → Bool) (item : AddItem) (moves : List Move) (st : Registry)
    (first_check : Option RejectionKind)
    → IsSound st
    → IsFresh item.id (play delivers moves st)
    → IsSound (recheck delivers item moves st first_check).1
recheck-Sound delivers item moves st none m fresh =
    admit-Sound delivers item (play delivers moves st) (play-Sound delivers moves st m) fresh
recheck-Sound delivers item moves st (some kind) m fresh = m

pub spawn_and_register-Sound :
    (delivers : OutcomeTx → Bool) (item : AddItem) (moves : List Move) (st : Registry)
    → IsSound st
    → IsFresh item.id (play delivers moves st)
    → IsSound (spawn_and_register delivers item moves st).1
unfolding spawn_and_register
spawn_and_register-Sound delivers item moves st m fresh =
    recheck-Sound delivers item moves st (validate item.name st) m fresh
