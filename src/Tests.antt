-- ===== src/Tests.antt =====
-- Runs at concrete inputs: one controller with a slot, a registry with a task, single slots, a
-- broker of two units, an actor with two retries and a backoff policy.
mod Controller
mod Registry
mod Runner
mod Lane
mod Slots
mod Capacity
mod Attempts
