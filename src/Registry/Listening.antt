-- ===== src/Registry/Listening.antt =====
-- src/core/registry/listener.rs: the fairness of the loop, and its log.
use taskvisor.Prelude.{
  ℕ, ◌+◌, ◌≤◌, ◌<◌, Bool, Option, List, [], ◌∷◌, ◌≡◌, refl, ap, ◌⊎◌, inl, inr, leb, length,
  Bool-cases, arith,
}
use taskvisor.Slot.{TaskId}
use taskvisor.Controller.State.{OutcomeTx}
use taskvisor.Registry.Terminal.{JoinResult}
use taskvisor.Registry.Listener.{
  Command, command, Listener, Pick, completion, control, management, take_input, drain,
  handle_control, receive_control, receive_command, receive_completion, select, turn, turns,
  completion_burst_limit,
}

-- Management and control input that waits.
abbrev pub waiting : Listener → ℕ
waiting l = length l.controls + length l.commands

-- The queue of the branch that `select!` takes has an item.
abbrev pub IsReady : Pick → Listener → Type 0
IsReady completion l = 1 ≤ length l.completions
IsReady control l = 1 ≤ length l.controls
IsReady management l = 1 ≤ length l.commands

abbrev pub AllReady : (OutcomeTx → Bool) → List Pick → Listener → Type 0
AllReady delivers [] l = Unit
AllReady delivers (pick ∷ picks) l = IsReady pick l × AllReady delivers picks (turn delivers pick l)

module _ (delivers : OutcomeTx → Bool) where
  drain-queues :
      (commands : List Command) (l : Listener)
      → ((drain delivers commands l).commands ≡ l.commands)
        × ((drain delivers commands l).controls ≡ l.controls)
  unfolding drain
  drain-queues [] l = (refl, refl)
  drain-queues (c ∷ rest) l = drain-queues rest (take_input delivers (command c) l)

  handle_control-waiting :
      (reply : ℕ) (l : Listener) → waiting (handle_control delivers reply l) ≤ waiting l
  unfolding handle_control
  handle_control-waiting reply l =
      let kept = drain-queues l.commands (record l { commands = [] }) in
      omega (arith, ap length kept.0, ap length kept.1)

  receive_control-waiting :
      (otherwise l : Listener) (controls : List ℕ)
      → l.controls ≡ controls
      → 1 ≤ length controls
      → waiting (receive_control delivers otherwise l controls) < waiting l
  receive_control-waiting otherwise l [] e h = ground arith
  receive_control-waiting otherwise l (reply ∷ rest) e h =
      omega (arith, ap length e, handle_control-waiting reply (record l { controls = rest }))

  receive_command-waiting :
      (otherwise l : Listener) (commands : List Command)
      → l.commands ≡ commands
      → 1 ≤ length commands
      → waiting (receive_command delivers otherwise l commands) < waiting l
  receive_command-waiting otherwise l [] e h = ground arith
  receive_command-waiting otherwise l (c ∷ rest) e h = omega (arith, ap length e)

  -- A turn handles what waits, or it handles one completion more in the burst.
  abbrev Progress : Listener → Listener → Type 0
  Progress l next =
      (waiting next < waiting l)
      ⊎ ((waiting next ≡ waiting l) × (next.completion_burst ≡ l.completion_burst + 1))

  receive_completion-Progress :
      (l : Listener) (queue : List (TaskId × Option JoinResult))
      → 1 ≤ length queue
      → Progress l (receive_completion delivers l queue)
  receive_completion-Progress l [] h = ground arith
  receive_completion-Progress l (entry ∷ rest) h = inr (refl, refl)

  select-Progress :
      (pick : Pick) (l : Listener) → IsReady pick l → Progress l (select delivers pick l)
  select-Progress completion l h = receive_completion-Progress l l.completions h
  select-Progress control l h = inl (receive_control-waiting l l l.controls refl h)
  select-Progress management l h = inl (receive_command-waiting l l l.commands refl h)

  receive_control_mono :
      (otherwise l : Listener) (controls : List ℕ)
      → l.controls ≡ controls
      → waiting otherwise ≤ waiting l
      → waiting (receive_control delivers otherwise l controls) ≤ waiting l
  receive_control_mono otherwise l [] e h = h
  receive_control_mono otherwise l (reply ∷ rest) e h =
      omega (arith, receive_control-waiting otherwise l (reply ∷ rest) e (omega arith))

  receive_command_mono :
      (otherwise l : Listener) (commands : List Command)
      → l.commands ≡ commands
      → waiting otherwise ≤ waiting l
      → waiting (receive_command delivers otherwise l commands) ≤ waiting l
  receive_command_mono otherwise l [] e h = h
  receive_command_mono otherwise l (c ∷ rest) e h =
      omega (arith, receive_command-waiting otherwise l (c ∷ rest) e (omega arith))

  receive_completion_mono :
      (l : Listener) (queue : List (TaskId × Option JoinResult))
      → waiting (receive_completion delivers l queue) ≤ waiting l
  receive_completion_mono l [] = omega arith
  receive_completion_mono l (entry ∷ rest) = omega arith

  select_mono : (pick : Pick) (l : Listener) → waiting (select delivers pick l) ≤ waiting l
  select_mono completion l = receive_completion_mono l l.completions
  select_mono control l = receive_control_mono l l l.controls refl (omega arith)
  select_mono management l = receive_command_mono l l l.commands refl (omega arith)

  turn_mono : (pick : Pick) (l : Listener) → waiting (turn delivers pick l) ≤ waiting l
  unfolding turn
  turn_mono pick l = elim (Bool-cases (leb completion_burst_limit l.completion_burst)) [
    | inl full ↦ simp (full) (
        receive_control_mono _ l l.controls refl (
          receive_command_mono _ l l.commands refl
            (select_mono pick (record l { completion_burst = 0 }))))
    | inr below ↦ simp (below) (select_mono pick l)
  ]

  turns_mono : (picks : List Pick) (l : Listener) → waiting (turns delivers picks l) ≤ waiting l
  unfolding turns
  turns_mono [] l = omega arith
  turns_mono (pick ∷ picks) l =
      omega (arith, turns_mono picks (turn delivers pick l), turn_mono pick l)

  receive_any-waiting :
      (otherwise l : Listener)
      → 1 ≤ waiting l
      → waiting
          (receive_control delivers (receive_command delivers otherwise l l.commands) l l.controls)
        < waiting l
  receive_any-waiting otherwise l h = by_controls l.controls refl
    where
      by_controls :
          (controls : List ℕ)
          → l.controls ≡ controls
          → waiting (
              receive_control delivers (receive_command delivers otherwise l l.commands) l controls)
            < waiting l
      by_controls [] e =
          receive_command-waiting otherwise l l.commands refl (omega (arith, h, ap length e))
      by_controls (reply ∷ rest) e =
          receive_control-waiting (receive_command delivers otherwise l l.commands) l (reply ∷ rest)
            e (omega arith)

  turn-Progress :
      (pick : Pick) (l : Listener)
      → IsReady pick l
      → 1 ≤ waiting l
      → (waiting (turn delivers pick l) < waiting l)
        ⊎ ((l.completion_burst < completion_burst_limit)
            × (waiting (turn delivers pick l) ≡ waiting l)
            × ((turn delivers pick l).completion_burst ≡ l.completion_burst + 1))
  unfolding turn
  turn-Progress pick l ready h = elim (Bool-cases (leb completion_burst_limit l.completion_burst)) [
    | inl full ↦ simp (full) (inl (receive_any-waiting _ l h))
    | inr below ↦ simp (below) (elim (select-Progress pick l ready) [
      | inl done ↦ inl done
      | inr (same, more) ↦ inr (ground (arith, below), same, more)
    ])
  ]

-- While control or management input waits and the burst is within its limit, the listener handles
-- some of that input within as many turns as are left of the burst and one more, whichever ready
-- branch each turn takes.
pub turns_serve :
    (delivers : OutcomeTx → Bool) (picks : List Pick) (l : Listener)
    → AllReady delivers picks l
    → 1 ≤ waiting l
    → completion_burst_limit < l.completion_burst + length picks
    → l.completion_burst ≤ completion_burst_limit
    → waiting (turns delivers picks l) < waiting l
unfolding turns
turns_serve delivers [] l ready h long burst = omega arith
turns_serve delivers (pick ∷ picks) l ready h long burst =
    elim (turn-Progress delivers pick l ready.0 h) [
      | inl done ↦ omega (arith, done, turns_mono delivers picks (turn delivers pick l))
      | inr (below, same, more) ↦ omega (
        arith,
        same,
        turns_serve delivers picks (turn delivers pick l) ready.1 (omega (arith, h, same))
            (omega (arith, long, more)) (omega (arith, below, more)),
      )
    ]
