-- ===== src/Lane/Order.antt =====
-- src/subscribers/subscriber_set.rs: the order and the bound of one lane.
use mathlib.Core.List.{append_assoc, append-nil}
use taskvisor.Prelude.{
  ℕ, zero, suc, ◌≤◌, Bool, true, false, ◌&&◌, ◌||◌, List, [], ◌∷◌, ◌++◌, ◌==◌, ◌≡◌, refl, ap, sym,
  ◌∙◌, inl, inr, if◌then◌else◌, length, length-append, Bool-cases, arith,
}
use taskvisor.Lane.{
  LanePhase, idle, scheduled, running, finished, Worker, waiting, serving, calling, saw_idle,
  ending, stopped, Lane, accept, enqueue_open, enqueue_phase, enqueue, finish_running, close_phase,
  begin_close, abort_phase, abort_lane, take_phase, after_callback, rest_of_lane, next_item, next,
  recheck, is_empty, work, Step, enqueues, begins_close, aborts, works, step, run, new,
}

-- The worker takes nothing more.
abbrev pub is_stopped : Worker → Bool
is_stopped stopped = true
is_stopped _ = false

abbrev pub is_ended : Lane → Bool
is_ended l = l.abort || is_stopped l.worker

-- The queue is within its capacity; what entered it was delivered in order, then comes what was
-- dropped and then what waits; nothing is dropped before the lane is aborted or its worker stops.
pub record InOrder (l : Lane) : Type 0 where
  pub bounded : length l.queue ≤ l.capacity
  pub ordered : l.accepted ≡ l.delivered ++ (l.lost ++ l.queue)
  pub kept : is_ended l ≡ false → l.lost ≡ []

accept-InOrder :
    (event : ℕ) (l : Lane)
    → InOrder l
    → (length l.queue == l.capacity) ≡ false
    → InOrder (accept event l)
accept-InOrder event l m room = record {
  bounded = ground (arith, room, m.bounded, length-append l.queue (event ∷ []));
  ordered = ap (λ list. list ++ event ∷ []) m.ordered ∙ simp (append_assoc) refl;
  kept = m.kept;
}

enqueue_open-InOrder :
    (is_internal : Bool) (event : ℕ) (l : Lane)
    → InOrder l
    → InOrder (enqueue_open is_internal event l)
enqueue_open-InOrder is_internal event l m = elim (Bool-cases (length l.queue == l.capacity)) [
  | inl full ↦ simp (full) (record { bounded = m.bounded; ordered = m.ordered; kept = m.kept })
  | inr room ↦ simp (room) (accept-InOrder event l m room)
]

enqueue_phase-InOrder :
    (is_internal : Bool) (event : ℕ) (l : Lane) (phase : LanePhase)
    → InOrder l
    → InOrder (enqueue_phase is_internal event l phase)
enqueue_phase-InOrder is_internal event l finished m = record {
  bounded = m.bounded;
  ordered = m.ordered;
  kept = m.kept;
}
enqueue_phase-InOrder is_internal event l idle m = enqueue_open-InOrder is_internal event l m
enqueue_phase-InOrder is_internal event l scheduled m = enqueue_open-InOrder is_internal event l m
enqueue_phase-InOrder is_internal event l running m = enqueue_open-InOrder is_internal event l m

-- A worker that has not stopped moves to another place.
goes_to-InOrder :
    (worker : Worker) (l : Lane)
    → InOrder l
    → is_stopped l.worker ≡ false
    → InOrder (record l { worker = worker })
goes_to-InOrder worker l m w = record {
  bounded = m.bounded;
  ordered = m.ordered;
  kept = λ h. m.kept (ground (arith, h, w));
}

finish_running-InOrder : (l : Lane) → InOrder l → InOrder (finish_running l)
unfolding finish_running
finish_running-InOrder l m = record {
  bounded = omega arith;
  ordered = m.ordered ∙ simp (append-nil) refl;
  kept = λ h. ground (arith, h);
}

close_phase-InOrder : (l : Lane) (phase : LanePhase) → InOrder l → InOrder (close_phase l phase)
close_phase-InOrder l idle m = record { bounded = m.bounded; ordered = m.ordered; kept = m.kept }
close_phase-InOrder l scheduled m = record {
  bounded = m.bounded;
  ordered = m.ordered;
  kept = m.kept;
}
close_phase-InOrder l running m = record { bounded = m.bounded; ordered = m.ordered; kept = m.kept }
close_phase-InOrder l finished m = record {
  bounded = m.bounded;
  ordered = m.ordered;
  kept = m.kept;
}

abort_phase-InOrder : (l : Lane) (phase : LanePhase) → InOrder l → InOrder (abort_phase l phase)
abort_phase-InOrder l idle m = record { bounded = m.bounded; ordered = m.ordered; kept = m.kept }
abort_phase-InOrder l scheduled m = record {
  bounded = m.bounded;
  ordered = m.ordered;
  kept = m.kept;
}
abort_phase-InOrder l running m = m
abort_phase-InOrder l finished m = m

abort_lane-InOrder : (l : Lane) → InOrder l → InOrder (abort_lane l)
unfolding abort_lane
abort_lane-InOrder l m = abort_phase-InOrder _ l.phase (record {
  bounded = omega arith;
  ordered = m.ordered ∙ simp (append-nil) refl;
  kept = λ h. ground (arith, h);
})

after_callback-InOrder :
    (goes_on : Bool) (l : Lane)
    → InOrder l
    → l.worker ≡ calling
    → InOrder (after_callback goes_on l)
after_callback-InOrder true l m w = goes_to-InOrder serving l m (simp (w) refl)
after_callback-InOrder false l m w = goes_to-InOrder ending l m (simp (w) refl)

-- The worker's sections, in a lane whose worker has not stopped.
rest_of_lane-InOrder :
    (l : Lane) → InOrder l → is_stopped l.worker ≡ false → InOrder (rest_of_lane l)
rest_of_lane-InOrder l m w = elim (Bool-cases (l.dropped == 0)) [
  | inl none_dropped ↦
      simp (none_dropped) (goes_to-InOrder (if l.closing then ending else saw_idle) l m w)
  | inr some_dropped ↦ simp (some_dropped) (record {
    bounded = m.bounded;
    ordered = m.ordered;
    kept = (goes_to-InOrder calling l m w).kept;
  })
]

next_item-InOrder :
    (l : Lane) (queue : List ℕ)
    → InOrder l
    → l.queue ≡ queue
    → is_stopped l.worker ≡ false
    → l.abort ≡ false
    → InOrder (next_item l queue)
next_item-InOrder l [] m e w a = rest_of_lane-InOrder l m w
next_item-InOrder l (event ∷ queue) m e w a =
    let nothing_lost : l.lost ≡ [] = m.kept (simp (a, w) refl) in
    record {
      bounded = omega (arith, m.bounded, ap length e);
      ordered =
          m.ordered
          ∙ ap (λ list. l.delivered ++ (l.lost ++ list)) e
          ∙ simp (nothing_lost, append_assoc) refl;
      kept = λ h. nothing_lost;
    }

next_unless_abort :
    (l : Lane) (aborted : Bool)
    → InOrder l
    → is_stopped l.worker ≡ false
    → l.abort ≡ aborted
    → InOrder (if aborted then record l { worker = ending } else next_item l l.queue)
next_unless_abort l true m w a = goes_to-InOrder ending l m w
next_unless_abort l false m w a = next_item-InOrder l l.queue m refl w a

next-InOrder : (l : Lane) → InOrder l → is_stopped l.worker ≡ false → InOrder (next l)
unfolding next
next-InOrder l m w = next_unless_abort l l.abort m w refl

recheck-InOrder : (l : Lane) → InOrder l → is_stopped l.worker ≡ false → InOrder (recheck l)
unfolding recheck
recheck-InOrder l m w = elim (Bool-cases (l.abort || l.closing)) [
  | inl ends ↦ simp (ends) (goes_to-InOrder ending l m w)
  | inr stays ↦ elim (Bool-cases (is_empty l.queue && l.dropped == 0)) [
    | inl empty ↦
        simp (stays, empty)
          (record {
            bounded = m.bounded;
            ordered = m.ordered;
            kept = (goes_to-InOrder waiting l m w).kept;
          })
    | inr more ↦ simp (stays, more) (goes_to-InOrder serving l m w)
  ]
]

take_phase-InOrder :
    (l : Lane) (phase : LanePhase) → InOrder l → l.worker ≡ waiting → InOrder (take_phase l phase)
take_phase-InOrder l scheduled m w = record {
  bounded = m.bounded;
  ordered = m.ordered;
  kept = λ h. m.kept (simp (w) h);
}
take_phase-InOrder l finished m w = record {
  bounded = m.bounded;
  ordered = m.ordered;
  kept = λ h. m.kept (ground (arith, h, w));
}
take_phase-InOrder l idle m w = m
take_phase-InOrder l running m w = m

work-InOrder :
    (goes_on : Bool) (l : Lane) (worker : Worker)
    → InOrder l
    → l.worker ≡ worker
    → InOrder (work goes_on l worker)
work-InOrder goes_on l waiting m w = take_phase-InOrder l l.phase m w
work-InOrder goes_on l serving m w = next-InOrder l m (ap is_stopped w)
work-InOrder goes_on l calling m w = after_callback-InOrder goes_on l m w
work-InOrder goes_on l saw_idle m w = recheck-InOrder l m (ap is_stopped w)
work-InOrder goes_on l ending m w = finish_running-InOrder l m
work-InOrder goes_on l stopped m w = m

step-InOrder : (s : Step) (l : Lane) → InOrder l → InOrder (step s l)
unfolding step enqueue begin_close
step-InOrder (enqueues is_internal event) l m = enqueue_phase-InOrder is_internal event l l.phase m
step-InOrder begins_close l m = close_phase-InOrder l l.phase m
step-InOrder aborts l m = abort_lane-InOrder l m
step-InOrder (works goes_on) l m = work-InOrder goes_on l l.worker m refl

run_kept : (steps : List Step) (l : Lane) → InOrder l → InOrder (run steps l)
unfolding run
run_kept [] l m = m
run_kept (s ∷ steps) l m = run_kept steps (step s l) (step-InOrder s l m)

-- However the steps of the emitter, of shutdown and of the worker interleave in a new lane, those
-- during a callback and before the worker's end included, its queue stays within the capacity, and
-- the events that entered it are those that the worker took for the callback, in that order, then
-- those that were dropped, then those that wait; and as long as the lane is not aborted and its
-- worker has not stopped, none was dropped.
pub run-InOrder : (capacity : ℕ) (steps : List Step) → InOrder (run steps (new capacity))
run-InOrder capacity steps =
    run_kept steps (new capacity)
      (record { bounded = omega arith; ordered = refl; kept = λ h. refl })

-- A worker that serves a lane with `n` events: it takes each, and the callback goes on.
abbrev pub works_on : ℕ → List Step
works_on zero = []
works_on (suc n) = works true ∷ works true ∷ works_on n

abbrev served : ℕ → List ℕ → Lane → Lane
served event queue l = record l {
  queue = queue;
  delivered = l.delivered ++ event ∷ [];
  worker = serving;
}

delivers_first :
    (event : ℕ) (queue : List ℕ) (l : Lane)
    → l.queue ≡ event ∷ queue
    → l.worker ≡ serving
    → l.abort ≡ false
    → step (works true) (step (works true) l) ≡ served event queue l
unfolding step next
delivers_first event queue l e w a = ap (step (works true)) (
    ap (work true l) w
    ∙ ap (λ b. if b then record l { worker = ending } else next_item l l.queue) a
    ∙ ap (next_item l) e)

-- A lane that is not aborted, while its worker serves it and the callback goes on, hands over all
-- the events that wait, in two steps for each, the one that takes it and the one that ends its
-- callback, whether or not the lane is closing; and its worker goes on serving.
pub serving_delivers :
    (queue : List ℕ) (l : Lane)
    → l.queue ≡ queue
    → l.worker ≡ serving
    → l.abort ≡ false
    → ((run (works_on (length queue)) l).queue ≡ [])
      × ((run (works_on (length queue)) l).delivered ≡ l.delivered ++ queue)
      × ((run (works_on (length queue)) l).worker ≡ serving)
unfolding run
serving_delivers [] l e w a = (e, sym (append-nil l.delivered), w)
serving_delivers (event ∷ queue) l e w a =
    let first = delivers_first event queue l e w a in
    let rest = serving_delivers queue (served event queue l) refl refl a in
    (
      ap (λ x. (run (works_on (length queue)) x).queue) first ∙ rest.0,
      ap (λ x. (run (works_on (length queue)) x).delivered) first
          ∙ rest.1
          ∙ append_assoc l.delivered (event ∷ []) queue,
      ap (λ x. (run (works_on (length queue)) x).worker) first ∙ rest.2,
    )
