-- ===== src/Registry/Background.antt =====
-- src/core/registry: what other tasks do to the registry between two locked sections of a command.
use taskvisor.Prelude.{ℕ, Bool, List, [], ◌∷◌}
use taskvisor.Slot.{TaskId}
use taskvisor.Controller.State.{OutcomeTx}
use taskvisor.Registry.Reaper.{Latch, complete_physical}
use taskvisor.Registry.State.{Registry}
use taskvisor.Registry.Terminal.{JoinResult}
use taskvisor.Registry.Join.{abort_actor, finish_join, cancel_all_within}

-- An owner aborts its actor, an owner finishes, an attempt of the reaper exits, or the shutdown of
-- the runtime claims everything.
pub data Move : Type 0 where
  aborts : (spawned : Bool) → TaskId → Move
  finishes : TaskId → JoinResult → Move
  exits : TaskId → Latch → (output : ℕ) → (poisoned : Bool) → Move
  cancels_all : Move

unfoldable pub move : (OutcomeTx → Bool) → Move → Registry → Registry
unfolding abort_actor finish_join complete_physical cancel_all_within
move delivers (aborts spawned id) st = abort_actor spawned id st
move delivers (finishes id result) st = finish_join delivers id result st
move delivers (exits id release output poisoned) st = record st {
  reaper = complete_physical id release output poisoned st.reaper;
}
move delivers cancels_all st = cancel_all_within st

unfoldable pub play : (OutcomeTx → Bool) → List Move → Registry → Registry
unfolding move
play delivers [] st = st
play delivers (next ∷ moves) st = play delivers moves (move delivers next st)
