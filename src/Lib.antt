-- ===== src/Lib.antt =====
-- Taskvisor supervises asynchronous tasks: a controller decides when submissions may start in named
-- slots, a registry owns the running tasks, an actor runs the attempts of one task and retries
-- them, a broker bounds the task values that the runtime owns, and lanes hand events to
-- subscribers. This library models the serialized core of these parts and states what makes it
-- correct.
--
-- Prelude shares Boolean tests on the native numbers, lists measured by them, hash maps as
-- association lists whose keys are distinct (`IsMap`), and the number of items that pass a test.
--
-- The controller (src/controller/engine). Its loop takes one input at a time, so each handler is a
-- function from the state of the controller to the next one.
--   * Slot: the phases of a slot, state/slot.rs. A transition returns the slot and its result.
--   * Controller/State, Controller/Queue: mod.rs, state/mod.rs, queue.rs and admission/cleanup.rs.
--     `State` holds the maps of `ControllerState`, the tracked futures of operations.rs and logs of
--     what was published, answered and disposed of.
--   * Controller/Pump: `CapacityAdmissionPump` of operations.rs.
--   * Controller/Handoff, Controller/Placement: admission/handoff.rs, admission/advance.rs and
--     admission/placement.rs: a submission goes to the registry, to a queue or back.
--   * Controller/Submission: admission/submission.rs and admission/watcher.rs.
--   * Controller/Results: admission/capacity.rs, admission/results.rs and the removal results of
--     operations.rs.
--   * Controller/Identity: identity.rs. Controller/Shutdown: lifecycle/shutdown.rs.
--   * Controller/Loop: the `select!` of lifecycle/driver.rs as a function of the input it takes.
-- Controller/Ownership states the invariant that ties the queues, their reverse index, the capacity
-- waiters and the pending Add commands together; its children follow it through the handlers.
--
-- What the controller calls outside of it is a record, `Runtime`: the immediate answer of an Add
-- command, of a commit of reserved capacity, of `Weak::upgrade` and of the shutdown flag at each
-- place where a handler reads them. Its answers are arbitrary. Results of futures come back
-- as inputs of the loop, in any order.
--
-- The broker (src/core/deferred_drop/capacity.rs) is Capacity: its mutex makes every operation
-- atomic. Capacity/Reach is the transition system of all operations in any order, in which permits
-- are counted by the units that they hold.
--
-- The actor (src/core/actor.rs, src/policies/restart.rs) is Actor: one iteration of its loop is a
-- function of a `Turn`, what the iteration reads from the semaphore, the token, the attempt and the
-- clock, and a run is a fold over the turns, so that no fuel is needed. The retry delays
-- (src/policies/backoff.rs, src/policies/jitter.rs) are Backoff, in nanoseconds. The floating point
-- product and the random draw are parameters; the bounds assume of a draw only that it lies within
-- its range, and the least distance of two retries that a positive product is not rounded to zero.
--
-- The runner (src/core/runner.rs) is Runner: one attempt as a function of what the code of the task
-- does - creating the future, each poll, the destructors - each of which may unwind.
--
-- Lane is the lane of one subscriber with its dedicated worker (src/subscribers/subscriber_set.rs):
-- the steps of the emitter, of shutdown and of the worker interleave in any order. The worker's
-- choice of an item, the end of its callback, its second look and its end are steps of their own.
--
-- The registry (src/core/registry). Its state lock makes each section between two waits atomic;
-- what other tasks do between two sections is a list of moves, which a command carries.
--   * Registry/State: state.rs, completion.rs, protocol.rs and removal/pending.rs. A claimed handle
--     stands in `joins` until its owner finishes; latches, outcomes and events are logs.
--   * Registry/Reaper: scheduler/reaper.rs, where force-aborted attempts wait for their physical exit
--     and their terminal bundle. Registry/Matching and Registry/Keeping relate its two maps, and
--     Registry/Rendezvous the two orders of arrival.
--   * Registry/Removal, Registry/Terminal, Registry/Join: removal/commands.rs, terminal.rs, join.rs and
--     `ActorHandle::abort` of scheduler/actor.rs.
--   * Registry/Background: the moves of other tasks. Registry/Admission: admission/single.rs and
--     batch.rs, whose two checks enclose such moves.
--   * Registry/Listener: listener.rs, the commands and the loop. Which ready branch `select!` takes is
--     an argument of each turn, and so no fuel is needed. Registry/Serving says what it means that the
--     loop serves its queues, and Registry/Logging that it does.
-- Registry/Soundness states the invariant, and Claiming, Finishing, Owning, Commanding, Admitting,
-- Adding and Batch follow it through the operations; Registry/Reach is the transition system of all
-- inputs in any order. That a command adds new identities is a hypothesis, stated at the moment of
-- its write lock.
--
-- Not modelled: the queries of the registry, the spawning of actors and the teardown of dropped
-- handles, the shutdown workflow of the supervisor, the cleanup worker, the event bus, the shared
-- worker and the start of subscribers, builders, handles and snapshots; texts of reasons and logs;
-- wakeups, timers and the scheduling of futures; the overflow of counters on machines of 64 bits,
-- except where the code saturates (attempt and retry counters of 32 bits, durations, the drops of a
-- lane).
--
-- Tests holds runs at concrete inputs.
pub mod Prelude
pub mod Slot
pub mod Controller
pub mod Capacity
pub mod Backoff
pub mod Actor
pub mod Registry
pub mod Runner
pub mod Lane
mod Tests
