-- ===== src/Tests/Registry.antt =====
-- src/core/registry on concrete inputs.
use taskvisor.Prelude.{
  ℕ, ◌+◌, ◌≤◌, ◌<◌, Bool, true, false, none, some, List, [], ◌∷◌, ◌≡◌, refl, lookup, Within, tally,
  insert, arith,
}
use taskvisor.Controller.State.{OutcomeTx}
use taskvisor.Actor
use taskvisor.Registry.Reaper
use taskvisor.Registry.Reaper.{Reaper, register, complete_physical, attach_terminal}
use taskvisor.Registry.State.{
  Handle, registered, removing, Entry, Claim, Registry, AddItem, count_of,
}
use taskvisor.Registry.Terminal.{JoinResult, returned, finish_removal}
use taskvisor.Registry.Background.{Move, aborts, play}
use taskvisor.Registry.Admission.{spawn_and_register_batch}
use taskvisor.Registry.Listener.{
  add, cancel, command, moved, step, boot, Listener, Pick, completion, turns, shut_down,
}
use taskvisor.Registry.Soundness.{IsSound, alive, of_name, of_id, any, of_claim}
use taskvisor.Registry.Rendezvous.{rendezvous, met}
use taskvisor.Registry.Atomic.{IsWhole, batch_all_or_nothing}
use taskvisor.Registry.Drained.{after_shutdown, shutdown_drains}
use taskvisor.Registry.Listening.{waiting, turns_serve}
use taskvisor.Registry.Serving.{Serves}
use taskvisor.Registry.Logging.{Closes, turns_refine_run}
use taskvisor.Registry.Reporting.{cancel_task_joins, Finished, finish_removal_reports}
use taskvisor.Registry.Removal.{cancel_task, remove_task}
use taskvisor.Registry.Reach.{
  Reach, booted, stepped, step-IsSound, Reach-IsSound, Reach_one_attempt, Reach_one_owner,
}

abbrev delivers : OutcomeTx → Bool
delivers tx = true

abbrev item : ℕ → ℕ → AddItem
item id name = record {
  id = id;
  name = name;
  bundle = id + 100;
  activity = id;
  done = some (id + 200);
  completion = id + 300;
}

-- One task, which is cancelled and then aborted while it runs.
abbrev start_state : Registry
start_state = boot (some 2)

abbrev with_one : Registry
with_one = step delivers (command (add (item 1 7) [])) start_state

abbrev cancelled : Registry
cancelled = step delivers (command (cancel 1)) with_one

abbrev aborted : Registry
aborted = step delivers (moved (aborts true 1)) cancelled

-- The first task is new to the empty registry, so its state is reachable.
with_one_reachable : Reach delivers (some 2) with_one
unfolding play lookup tally
with_one_reachable = stepped (command (add (item 1 7) [])) start_state booted (refl, refl)

aborted_reachable : Reach delivers (some 2) aborted
aborted_reachable =
    stepped (moved (aborts true 1)) cancelled
      (stepped (command (cancel 1)) with_one with_one_reachable tt) tt

step-IsSound_example : IsSound aborted
step-IsSound_example =
    step-IsSound delivers (moved (aborts true 1)) cancelled
      (Reach-IsSound delivers (some 2) cancelled
        (stepped (command (cancel 1)) with_one with_one_reachable tt))
      tt

Reach_one_attempt_example :
    (alive (of_name 7) aborted.tasks aborted.joins aborted.reaper.records ≤ 1)
    × Within aborted.max_registered_tasks
        (alive any aborted.tasks aborted.joins aborted.reaper.records)
Reach_one_attempt_example = Reach_one_attempt delivers (some 2) aborted 7 aborted_reachable

abbrev leaving : Entry
leaving = record { name = 7; state = removing 301 }

aborted_entry : lookup 1 aborted.tasks ≡ some leaving
unfolding step lookup insert
aborted_entry = refl

Reach_one_owner_example :
    (tally (of_claim (of_id 1)) aborted.joins ≡ 1)
    × (count_of (lookup 1 aborted.pending.counts) ≡ 1)
Reach_one_owner_example =
    Reach_one_owner delivers (some 2) aborted 1 leaving aborted_reachable aborted_entry

rendezvous_example :
    (attach_terminal 1 101
        (some 301)
        301
        (complete_physical 1 301 900 false (register 1 7 1 301 Reaper.new))
      ≡ met 101 900 false (record { state = some 301; report = 301 }) 301 Reaper.new)
    × (complete_physical 1 301 900 false
          (attach_terminal 1 101 (some 301) 301 (register 1 7 1 301 Reaper.new))
        ≡ met 101 900 false (record { state = some 301; report = 301 }) 301 Reaper.new)
unfolding tally
rendezvous_example =
    rendezvous 1 7 1 301 900 false 101 (some 301) 301 Reaper.new
      (Reach-IsSound delivers (some 2) start_state booted).4 refl

abbrev pair : List AddItem
pair = item 2 8 ∷ item 3 9 ∷ []

batch_all_or_nothing_example :
    IsWhole pair start_state
      (play delivers (Move.cancels_all ∷ []) start_state)
      (spawn_and_register_batch delivers pair (Move.cancels_all ∷ []) start_state)
unfolding play lookup tally
batch_all_or_nothing_example =
    batch_all_or_nothing delivers pair (Move.cancels_all ∷ []) start_state
      ((refl, refl), (refl, tt), ((refl, refl), tt, tt))

abbrev stops : Claim → JoinResult
stops c = returned Actor.stopped

shutdown_drains_example :
    ((after_shutdown delivers stops with_one).tasks ≡ [])
    × ((after_shutdown delivers stops with_one).by_name ≡ [])
    × ((after_shutdown delivers stops with_one).pending.counts ≡ [])
shutdown_drains_example =
    shutdown_drains delivers stops with_one
      (Reach-IsSound delivers (some 2) with_one with_one_reachable)

-- A burst of completions is over, and a cancel waits.
abbrev busy : Listener
busy = record {
  registry = with_one;
  completion_burst = 64;
  controls = [];
  commands = cancel 1 ∷ [];
  completions = (9, none) ∷ [];
  handled = [];
  fenced = [];
}

turns_serve_example : waiting (turns delivers (completion ∷ []) busy) < waiting busy
turns_serve_example =
    turns_serve delivers (completion ∷ []) busy (omega arith, tt) (omega arith) (omega arith)
      (omega arith)

abbrev two_picks : List Pick
two_picks = completion ∷ completion ∷ []

abbrev fenced_busy : Listener
fenced_busy = record busy { controls = 5 ∷ [] }

turns_refine_run_example :
    Serves delivers fenced_busy (turns delivers two_picks fenced_busy)
    × Closes delivers fenced_busy (shut_down delivers (turns delivers two_picks fenced_busy))
turns_refine_run_example = turns_refine_run delivers two_picks fenced_busy

abbrev handle_one : Handle
handle_one = record { done = some 201; completion = 301; bundle = 101; activity = 1 }

with_one_entry : lookup 1 with_one.tasks ≡ some (record { name = 7; state = registered handle_one })
unfolding step lookup insert
with_one_entry = refl

cancel_task_joins_example :
    ((cancel_task 1 with_one).0 ≡ some (record { id = 1; claimed = true; completion = 301 }))
    × ((cancel_task 1 (cancel_task 1 with_one).1).0
        ≡ some (record { id = 1; claimed = false; completion = 301 }))
    × ((cancel_task 1 (cancel_task 1 with_one).1).1.joins ≡ (cancel_task 1 with_one).1.joins)
    × ((remove_task 1 (cancel_task 1 with_one).1).0 ≡ false)
cancel_task_joins_example = cancel_task_joins 1 7 handle_one with_one with_one_entry

abbrev claim_one : Claim
claim_one = record { id = 1; name = 7; handle = handle_one; aborted = false }

finish_removal_reports_example :
    Finished delivers claim_one
      (stops claim_one)
      cancelled
      (finish_removal delivers claim_one (stops claim_one) cancelled)
finish_removal_reports_example =
    finish_removal_reports delivers claim_one (stops claim_one) cancelled
