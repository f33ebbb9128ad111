-- ===== src/Lane.antt =====
-- src/subscribers/subscriber_set.rs: the lane of one subscriber with its dedicated worker. The
-- mutex of the lane makes each section atomic, and the callback runs without it; `worker` says
-- between which sections the worker stands, so that the emitter and shutdown may move at each of
-- these places. The lists `accepted`, `delivered` and `lost` log what entered the queue, what the
-- worker took from it for the callback, in the order of the calls, and what was dropped from it;
-- `reported` lists the overflow counts that the callback got. Whether a callback lets the worker go
-- on is an argument of the step that ends the call.
use taskvisor.Prelude.{
  ℕ, ◌+◌, min, Bool, true, false, not, ◌&&◌, ◌||◌, List, [], ◌∷◌, ◌++◌, ◌==◌, if◌then◌else◌, length,
}
pub mod Order

pub data LanePhase : Type 0 where
  idle scheduled running finished : LanePhase

-- At the condition variable or outside; before it takes the next item; in the callback; after it
-- saw that there is nothing to do; before `finish_running`, which locks the lane again; gone.
pub data Worker : Type 0 where
  waiting serving calling saw_idle ending stopped : Worker

pub record Lane : Type 0 where
  pub capacity : ℕ
  pub queue : List ℕ
  pub dropped : ℕ
  pub phase : LanePhase
  pub closing : Bool
  pub abort : Bool
  pub closed_reported : Bool
  pub done : Bool
  pub worker : Worker
  pub accepted : List ℕ
  pub delivered : List ℕ
  pub lost : List ℕ
  pub reported : List ℕ

abbrev pub u64_max : ℕ
u64_max = 18446744073709551615

abbrev pub wake : LanePhase → LanePhase
wake idle = scheduled
wake phase = phase

abbrev pub accept : ℕ → Lane → Lane
accept event l = record l {
  queue = l.queue ++ event ∷ [];
  accepted = l.accepted ++ event ∷ [];
  phase = wake l.phase;
}

abbrev pub enqueue_open : (is_internal : Bool) → ℕ → Lane → Lane
enqueue_open is_internal event l =
    if length l.queue == l.capacity
    then record l { dropped = if is_internal then l.dropped else min (l.dropped + 1) u64_max }
    else accept event l

abbrev pub enqueue_phase : (is_internal : Bool) → ℕ → Lane → LanePhase → Lane
enqueue_phase is_internal event l finished = record l {
  closed_reported = not is_internal || l.closed_reported;
}
enqueue_phase is_internal event l idle = enqueue_open is_internal event l
enqueue_phase is_internal event l scheduled = enqueue_open is_internal event l
enqueue_phase is_internal event l running = enqueue_open is_internal event l

unfoldable pub enqueue : (is_internal : Bool) → ℕ → Lane → Lane
enqueue is_internal event l = enqueue_phase is_internal event l l.phase

abbrev pub finish : Lane → Lane
finish l = record l { phase = finished; done = true }

-- The end of the worker: what is queued goes.
unfoldable pub finish_running : Lane → Lane
finish_running l = record l {
  phase = finished;
  queue = [];
  dropped = 0;
  done = true;
  worker = stopped;
  lost = l.lost ++ l.queue;
}

abbrev pub close_phase : Lane → LanePhase → Lane
close_phase l idle = finish (record l { closing = true })
close_phase l _ = record l { closing = true }

unfoldable pub begin_close : Lane → Lane
begin_close l = close_phase l l.phase

abbrev pub abort_phase : Lane → LanePhase → Lane
abort_phase l idle = finish l
abort_phase l scheduled = finish l
abort_phase l running = l
abort_phase l finished = l

unfoldable pub abort_lane : Lane → Lane
abort_lane l =
    abort_phase
      (record l { closing = true; abort = true; queue = []; dropped = 0; lost = l.lost ++ l.queue })
      l.phase

-- The worker's wait for a scheduled lane.
abbrev pub take_phase : Lane → LanePhase → Lane
take_phase l scheduled = record l { phase = running; worker = serving }
take_phase l finished = record l { worker = stopped }
take_phase l idle = l
take_phase l running = l

-- After a callback: it may tell the worker to stop.
abbrev pub after_callback : (goes_on : Bool) → Lane → Lane
after_callback true l = record l { worker = serving }
after_callback false l = record l { worker = ending }

abbrev pub rest_of_lane : Lane → Lane
rest_of_lane l =
    if l.dropped == 0
    then record l { worker = if l.closing then ending else saw_idle }
    else record l { dropped = 0; reported = l.reported ++ l.dropped ∷ []; worker = calling }

abbrev pub next_item : Lane → List ℕ → Lane
next_item l [] = rest_of_lane l
next_item l (event ∷ queue) = record l {
  queue = queue;
  delivered = l.delivered ++ event ∷ [];
  worker = calling;
}

-- The choice of the next item, under one lock.
unfoldable pub next : Lane → Lane
next l = if l.abort then record l { worker = ending } else next_item l l.queue

abbrev pub is_empty : List ℕ → Bool
is_empty [] = true
is_empty (event ∷ queue) = false

-- The second look at an idle lane, under a new lock.
unfoldable pub recheck : Lane → Lane
recheck l =
    if l.abort || l.closing
    then record l { worker = ending }
    else if is_empty l.queue && l.dropped == 0
    then record l { phase = idle; worker = waiting }
    else record l { worker = serving }

abbrev pub work : (goes_on : Bool) → Lane → Worker → Lane
work goes_on l waiting = take_phase l l.phase
work goes_on l serving = next l
work goes_on l calling = after_callback goes_on l
work goes_on l saw_idle = recheck l
work goes_on l ending = finish_running l
work goes_on l stopped = l

pub data Step : Type 0 where
  enqueues : (is_internal : Bool) → ℕ → Step
  begins_close aborts : Step
  works : (goes_on : Bool) → Step

unfoldable pub step : Step → Lane → Lane
unfolding enqueue begin_close abort_lane next recheck finish_running
step (enqueues is_internal event) l = enqueue is_internal event l
step begins_close l = begin_close l
step aborts l = abort_lane l
step (works goes_on) l = work goes_on l l.worker

unfoldable pub run : List Step → Lane → Lane
unfolding step
run [] l = l
run (s ∷ steps) l = run steps (step s l)

abbrev pub new : ℕ → Lane
new capacity = record {
  capacity = capacity;
  queue = [];
  dropped = 0;
  phase = idle;
  closing = false;
  abort = false;
  closed_reported = false;
  done = false;
  worker = waiting;
  accepted = [];
  delivered = [];
  lost = [];
  reported = [];
}
