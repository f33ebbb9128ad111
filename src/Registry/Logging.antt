-- ===== src/Registry/Logging.antt =====
-- src/core/registry/listener.rs: the loop against the run of the inputs that its queues held.
use mathlib.Core.List.{append_assoc, append-nil}
use taskvisor.Prelude.{
  ℕ, Bool, Option, List, [], ◌∷◌, ◌++◌, map, ◌≡◌, refl, ap, sym, ◌∙◌, inl, inr, leb, Bool-cases,
}
use taskvisor.Slot.{TaskId}
use taskvisor.Controller.State.{OutcomeTx}
use taskvisor.Registry.Terminal.{JoinResult}
use taskvisor.Registry.Background.{cancels_all}
use taskvisor.Registry.Listener.{
  Command, command, completed, moved, step, run, Listener, Pick, completion, control, management,
  take_input, drain, handle_control, receive_control, receive_command, receive_completion, select,
  turn, turns, drain_controls, shut_down, completion_burst_limit,
}
use taskvisor.Registry.Serving.{
  commands_of, commands_of-map, completions_of-map, moves_of-map, Serves, Serves-refl, Serves-trans,
}

module _ (delivers : OutcomeTx → Bool) where
  -- The drain of a list of commands, all at once.
  drain-run :
      (cs : List Command) (l : Listener)
      → drain delivers cs l ≡ record l {
        registry = run delivers (map command cs) l.registry;
        handled = l.handled ++ map command cs;
      }
  unfolding drain run
  drain-run [] l = ap (λ h. record l { handled = h }) (sym (append-nil l.handled))
  drain-run (c ∷ cs) l =
      drain-run cs (take_input delivers (command c) l)
      ∙ ap
          (λ h. record l {
            registry = run delivers (map command cs) (step delivers (command c) l.registry);
            handled = h;
          })
          (append_assoc l.handled (command c ∷ []) (map command cs))

  abbrev drained : Listener → Listener
  drained l = record l {
    commands = [];
    registry = run delivers (map command l.commands) l.registry;
    handled = l.handled ++ map command l.commands;
  }

  drained-Serves : (l : Listener) → Serves delivers l (drained l)
  drained-Serves l = record {
    inputs = map command l.commands;
    fences = [];
    registry = refl;
    handled = refl;
    commands = sym (append-nil (commands_of (map command l.commands)) ∙ commands_of-map l.commands);
    completions = ap (λ list. list ++ l.completions) (sym (completions_of-map l.commands));
    moves = moves_of-map l.commands;
    controls = refl;
    fenced = sym (append-nil l.fenced);
    barrier = inl refl;
  }

  -- A fence that is first in its queue.
  acknowledged-Serves :
      (reply : ℕ) (rest : List ℕ) (l : Listener)
      → l.controls ≡ reply ∷ rest
      → l.commands ≡ []
      → Serves delivers l (record l { controls = rest; fenced = l.fenced ++ reply ∷ [] })
  unfolding run
  acknowledged-Serves reply rest l e h = record {
    inputs = [];
    fences = reply ∷ [];
    registry = refl;
    handled = sym (append-nil l.handled);
    commands = refl;
    completions = refl;
    moves = refl;
    controls = e;
    fenced = refl;
    barrier = inr h;
  }

  handle_control-Serves :
      (reply : ℕ) (rest : List ℕ) (l : Listener)
      → l.controls ≡ reply ∷ rest
      → Serves delivers l (handle_control delivers reply (record l { controls = rest }))
  unfolding handle_control
  handle_control-Serves reply rest l e =
      rw (drain-run l.commands (record l { controls = rest; commands = [] })) (
        Serves-trans delivers l (drained l) _ (drained-Serves l)
          (acknowledged-Serves reply rest (drained l) e refl))

  -- An input that is taken from the front of a queue, and the count of the burst.
  with_burst :
      (burst : ℕ) (l l' : Listener)
      → Serves delivers l l'
      → Serves delivers l (record l' { completion_burst = burst })
  with_burst burst l l' m = record {
    inputs = m.inputs;
    fences = m.fences;
    registry = m.registry;
    handled = m.handled;
    commands = m.commands;
    completions = m.completions;
    moves = m.moves;
    controls = m.controls;
    fenced = m.fenced;
    barrier = m.barrier;
  }

  receive_control-Serves :
      (otherwise l : Listener) (controls : List ℕ)
      → l.controls ≡ controls
      → Serves delivers l otherwise
      → Serves delivers l (receive_control delivers otherwise l controls)
  receive_control-Serves otherwise l [] e o = o
  receive_control-Serves otherwise l (reply ∷ rest) e o =
      with_burst 0 l _ (handle_control-Serves reply rest l e)

  receive_command-Serves :
      (otherwise l : Listener) (commands : List Command)
      → l.commands ≡ commands
      → Serves delivers l otherwise
      → Serves delivers l (receive_command delivers otherwise l commands)
  unfolding run
  receive_command-Serves otherwise l [] e o = o
  receive_command-Serves otherwise l (c ∷ rest) e o = record {
    inputs = command c ∷ [];
    fences = [];
    registry = refl;
    handled = refl;
    commands = e;
    completions = refl;
    moves = refl;
    controls = refl;
    fenced = sym (append-nil l.fenced);
    barrier = inl refl;
  }

  receive_completion-Serves :
      (l : Listener) (queue : List (TaskId × Option JoinResult))
      → l.completions ≡ queue
      → Serves delivers l (receive_completion delivers l queue)
  unfolding run
  receive_completion-Serves l [] e = Serves-refl delivers l
  receive_completion-Serves l ((id, ready) ∷ rest) e = record {
    inputs = completed id ready ∷ [];
    fences = [];
    registry = refl;
    handled = refl;
    commands = refl;
    completions = e;
    moves = refl;
    controls = refl;
    fenced = sym (append-nil l.fenced);
    barrier = inl refl;
  }

  select-Serves : (pick : Pick) (l : Listener) → Serves delivers l (select delivers pick l)
  select-Serves completion l = receive_completion-Serves l l.completions refl
  select-Serves control l = receive_control-Serves l l l.controls refl (Serves-refl delivers l)
  select-Serves management l = receive_command-Serves l l l.commands refl (Serves-refl delivers l)

  turn-Serves : (pick : Pick) (l : Listener) → Serves delivers l (turn delivers pick l)
  unfolding turn
  turn-Serves pick l = elim (Bool-cases (leb completion_burst_limit l.completion_burst)) [
    | inl full ↦ simp (full) (
        receive_control-Serves _ l l.controls refl (
          receive_command-Serves _ l l.commands refl (
            Serves-trans delivers l (record l { completion_burst = 0 }) _
              (with_burst 0 l l (Serves-refl delivers l))
              (select-Serves pick (record l { completion_burst = 0 })))))
    | inr below ↦ simp (below) (select-Serves pick l)
  ]

  turns-Serves : (picks : List Pick) (l : Listener) → Serves delivers l (turns delivers picks l)
  unfolding turns
  turns-Serves [] l = Serves-refl delivers l
  turns-Serves (pick ∷ picks) l =
      Serves-trans delivers l (turn delivers pick l) _ (turn-Serves pick l)
        (turns-Serves picks (turn delivers pick l))

  -- All fences of a queue, when no command is left.
  drain_controls-all :
      (controls : List ℕ) (l : Listener)
      → drain_controls delivers controls (record l { commands = [] })
        ≡ record l { commands = []; fenced = l.fenced ++ controls }
  unfolding drain_controls handle_control drain
  drain_controls-all [] l =
      ap (λ f. record l { commands = []; fenced = f }) (sym (append-nil l.fenced))
  drain_controls-all (reply ∷ rest) l =
      drain_controls-all rest (record l { fenced = l.fenced ++ reply ∷ [] })
      ∙ ap (λ f. record l { commands = []; fenced = f }) (append_assoc l.fenced (reply ∷ []) rest)

  -- The listener when shutdown has taken all that was left of both queues.
  abbrev settled : Listener → Listener
  settled l = record (drained l) { controls = []; fenced = l.fenced ++ l.controls }

  settled-Serves : (l : Listener) → Serves delivers l (settled l)
  unfolding run
  settled-Serves l = Serves-trans delivers l (drained l) (settled l) (drained-Serves l) (record {
    inputs = [];
    fences = l.controls;
    registry = refl;
    handled = sym (append-nil (l.handled ++ map command l.commands));
    commands = refl;
    completions = refl;
    moves = refl;
    controls = sym (append-nil l.controls);
    fenced = refl;
    barrier = inr refl;
  })

  shut_down-settled :
      (l : Listener) → shut_down delivers l ≡ take_input delivers (moved cancels_all) (settled l)
  unfolding shut_down
  shut_down-settled l =
      ap
        (λ x.
          take_input delivers (moved cancels_all)
            (drain_controls delivers l.controls (record x { controls = [] })))
        (drain-run l.commands (record l { commands = [] }))
      ∙ ap (take_input delivers (moved cancels_all))
          (drain_controls-all l.controls (record (drained l) { controls = [] }))

-- Shutdown after some turns: a listener that has served all commands and all fences of its queues,
-- and then claims everything that is registered.
pub record Closes (delivers : OutcomeTx → Bool) (before after : Listener) : Type 0 where
  pub settled_as : Listener
  pub serves : Serves delivers before settled_as
  pub no_commands : settled_as.commands ≡ []
  pub no_controls : settled_as.controls ≡ []
  pub claims : after ≡ take_input delivers (moved cancels_all) settled_as

-- Whichever branches the turns take, the registry after them is that of the inputs which they took
-- from the fronts of the queues: each queue is served in its own order and nothing of it is lost or
-- served twice; fences are acknowledged in order, and when one was, no command that was queued
-- before it is left. The shutdown that follows serves every command and every fence that is left
-- in the same way, and then claims all that is registered.
pub turns_refine_run :
    (delivers : OutcomeTx → Bool) (picks : List Pick) (l : Listener)
    → Serves delivers l (turns delivers picks l)
      × Closes delivers l (shut_down delivers (turns delivers picks l))
turns_refine_run delivers picks l =
    let before = turns-Serves delivers picks l in
    let l' : Listener = turns delivers picks l in
    (
      before,
      record {
        settled_as = settled delivers l';
        serves =
            Serves-trans delivers l l' (settled delivers l') before (settled-Serves delivers l');
        no_commands = refl;
        no_controls = refl;
        claims = shut_down-settled delivers l';
      },
    )
