-- ===== src/Registry/Serving.antt =====
-- src/core/registry/listener.rs: what it means that the listener serves the inputs of its queues.
use mathlib.Core.List.{append_assoc, append-nil}
use taskvisor.Prelude.{
  ℕ, Bool, Option, List, [], ◌∷◌, ◌++◌, map, ◌≡◌, refl, ap, sym, ◌∙◌, ◌⊎◌, inl, inr, arith,
}
use taskvisor.Slot.{TaskId}
use taskvisor.Controller.State.{OutcomeTx}
use taskvisor.Registry.State.{Registry}
use taskvisor.Registry.Terminal.{JoinResult}
use taskvisor.Registry.Background.{Move}
use taskvisor.Registry.Listener.{Command, Input, command, completed, moved, step, run, Listener}

-- What a list of inputs took from each queue, and the moves of other tasks in it.
abbrev pub commands_of : List Input → List Command
commands_of [] = []
commands_of (command c ∷ inputs) = c ∷ commands_of inputs
commands_of (completed id ready ∷ inputs) = commands_of inputs
commands_of (moved next ∷ inputs) = commands_of inputs

abbrev pub completions_of : List Input → List (TaskId × Option JoinResult)
completions_of [] = []
completions_of (command c ∷ inputs) = completions_of inputs
completions_of (completed id ready ∷ inputs) = (id, ready) ∷ completions_of inputs
completions_of (moved next ∷ inputs) = completions_of inputs

abbrev pub moves_of : List Input → List Move
moves_of [] = []
moves_of (command c ∷ inputs) = moves_of inputs
moves_of (completed id ready ∷ inputs) = moves_of inputs
moves_of (moved next ∷ inputs) = next ∷ moves_of inputs

-- `after` is what `before` becomes by some inputs, all of them taken from the fronts of its queues,
-- in their order: its registry is the registry after them. Fences are acknowledged in order, and
-- when one was, no command that was queued before it is left.
pub record Serves (delivers : OutcomeTx → Bool) (before after : Listener) : Type 0 where
  pub inputs : List Input
  pub fences : List ℕ
  pub registry : after.registry ≡ run delivers inputs before.registry
  pub handled : after.handled ≡ before.handled ++ inputs
  pub commands : before.commands ≡ commands_of inputs ++ after.commands
  pub completions : before.completions ≡ completions_of inputs ++ after.completions
  pub moves : moves_of inputs ≡ []
  pub controls : before.controls ≡ fences ++ after.controls
  pub fenced : after.fenced ≡ before.fenced ++ fences
  pub barrier : (fences ≡ []) ⊎ (after.commands ≡ [])

pub commands_of-append :
    (xs ys : List Input) → commands_of (xs ++ ys) ≡ commands_of xs ++ commands_of ys
commands_of-append [] ys = refl
commands_of-append (command c ∷ xs) ys = ap (λ l. c ∷ l) (commands_of-append xs ys)
commands_of-append (completed id ready ∷ xs) ys = commands_of-append xs ys
commands_of-append (moved next ∷ xs) ys = commands_of-append xs ys

pub completions_of-append :
    (xs ys : List Input) → completions_of (xs ++ ys) ≡ completions_of xs ++ completions_of ys
completions_of-append [] ys = refl
completions_of-append (command c ∷ xs) ys = completions_of-append xs ys
completions_of-append (completed id ready ∷ xs) ys =
    ap (λ l. (id, ready) ∷ l) (completions_of-append xs ys)
completions_of-append (moved next ∷ xs) ys = completions_of-append xs ys

pub moves_of-append : (xs ys : List Input) → moves_of (xs ++ ys) ≡ moves_of xs ++ moves_of ys
moves_of-append [] ys = refl
moves_of-append (command c ∷ xs) ys = moves_of-append xs ys
moves_of-append (completed id ready ∷ xs) ys = moves_of-append xs ys
moves_of-append (moved next ∷ xs) ys = ap (λ l. next ∷ l) (moves_of-append xs ys)

pub commands_of-map : (cs : List Command) → commands_of (map command cs) ≡ cs
commands_of-map [] = refl
commands_of-map (c ∷ cs) = ap (λ l. c ∷ l) (commands_of-map cs)

pub completions_of-map : (cs : List Command) → completions_of (map command cs) ≡ []
completions_of-map [] = refl
completions_of-map (c ∷ cs) = completions_of-map cs

pub moves_of-map : (cs : List Command) → moves_of (map command cs) ≡ []
moves_of-map [] = refl
moves_of-map (c ∷ cs) = moves_of-map cs

-- A queue with nothing left leaves nothing later.
nothing_left :
    {A : Type 0} (before taken after : List A) → before ≡ taken ++ after → before ≡ [] → after ≡ []
nothing_left before [] after e h = sym e ∙ h
nothing_left before (x ∷ taken) after e h = ground (arith, e, h)

module _ (delivers : OutcomeTx → Bool) where
  run-append :
      (xs ys : List Input) (st : Registry)
      → run delivers (xs ++ ys) st ≡ run delivers ys (run delivers xs st)
  unfolding run
  run-append [] ys st = refl
  run-append (x ∷ xs) ys st = run-append xs ys (step delivers x st)

  pub Serves-refl : (l : Listener) → Serves delivers l l
  unfolding run
  Serves-refl l = record {
    inputs = [];
    fences = [];
    registry = refl;
    handled = sym (append-nil l.handled);
    commands = refl;
    completions = refl;
    moves = refl;
    controls = refl;
    fenced = sym (append-nil l.fenced);
    barrier = inl refl;
  }

  barrier_trans :
      (a b c : Listener) (m : Serves delivers a b) (n : Serves delivers b c)
      → (m.fences ++ n.fences ≡ []) ⊎ (c.commands ≡ [])
  barrier_trans a b c m n = elim n.barrier [
    | inr h ↦ inr h
    | inl none_after ↦ elim m.barrier [
      | inl none_before ↦ inl (ap (λ l. l ++ n.fences) none_before ∙ none_after)
      | inr h ↦ inr (nothing_left b.commands (commands_of n.inputs) c.commands n.commands h)
    ]
  ]

  pub Serves-trans :
      (a b c : Listener) → Serves delivers a b → Serves delivers b c → Serves delivers a c
  Serves-trans a b c m n = record {
    inputs = m.inputs ++ n.inputs;
    fences = m.fences ++ n.fences;
    registry =
        n.registry
        ∙ ap (run delivers n.inputs) m.registry
        ∙ sym (run-append m.inputs n.inputs a.registry);
    handled =
        n.handled ∙ ap (λ l. l ++ n.inputs) m.handled ∙ append_assoc a.handled m.inputs n.inputs;
    commands =
        m.commands
        ∙ ap (λ l. commands_of m.inputs ++ l) n.commands
        ∙ simp (commands_of-append, append_assoc) refl;
    completions =
        m.completions
        ∙ ap (λ l. completions_of m.inputs ++ l) n.completions
        ∙ simp (completions_of-append, append_assoc) refl;
    moves = moves_of-append m.inputs n.inputs ∙ ap (λ l. l ++ moves_of n.inputs) m.moves ∙ n.moves;
    controls =
        m.controls
        ∙ ap (λ l. m.fences ++ l) n.controls
        ∙ sym (append_assoc m.fences n.fences c.controls);
    fenced = n.fenced ∙ ap (λ l. l ++ n.fences) m.fenced ∙ append_assoc a.fenced m.fences n.fences;
    barrier = barrier_trans a b c m n;
  }
