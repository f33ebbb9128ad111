-- ===== src/Tests/Lane.antt =====
-- src/subscribers/subscriber_set.rs on a lane of four events.
use taskvisor.Prelude.{ℕ, true, false, List, [], ◌∷◌, ◌++◌, ◌≡◌, refl, length}
use taskvisor.Lane.{Lane, running, serving, Step, enqueues, begins_close, works, run, new}
use taskvisor.Lane.Order.{InOrder, run-InOrder, works_on, serving_delivers}

-- The worker delivers one event and sees the lane idle; another event comes, then the lane closes,
-- and the worker looks again.
abbrev raced : List Step
raced =
    enqueues false 1
    ∷ works true
    ∷ works true
    ∷ works true
    ∷ works true
    ∷ enqueues false 5
    ∷ begins_close
    ∷ works true
    ∷ works true
    ∷ []

raced_lost : (run raced (new 4)).lost ≡ 5 ∷ []
unfolding run
raced_lost = refl

-- An event that comes during the last callback and one that comes after it are both dropped.
stopped_lost :
    (run
      (enqueues false 1
        ∷ works true
        ∷ works true
        ∷ enqueues false 2
        ∷ works false
        ∷ enqueues false 3
        ∷ works true
        ∷ [])
      (new 4)).lost
    ≡ 2 ∷ 3 ∷ []
unfolding run
stopped_lost = refl

run-InOrder_example : InOrder (run raced (new 4))
run-InOrder_example = run-InOrder 4 raced

abbrev both : List ℕ
both = 1 ∷ 5 ∷ []

abbrev served : Lane
served = record (new 4) {
  queue = both;
  accepted = both;
  phase = running;
  closing = true;
  worker = serving;
}

serving_delivers_example :
    ((run (works_on (length both)) served).queue ≡ [])
    × ((run (works_on (length both)) served).delivered ≡ [] ++ both)
    × ((run (works_on (length both)) served).worker ≡ serving)
serving_delivers_example = serving_delivers both served refl refl refl
