-- ===== src/Registry.antt =====
-- src/core/registry: the authoritative membership of tasks.
pub mod Reaper
pub mod Matching
pub mod Keeping
pub mod Rendezvous
pub mod State
pub mod Removal
pub mod Terminal
pub mod Join
pub mod Soundness
pub mod Claiming
pub mod Pending
pub mod Finishing
pub mod Owning
pub mod Commanding
pub mod Background
pub mod Admission
pub mod Presence
pub mod Admitting
pub mod Adding
pub mod Batch
pub mod Listener
pub mod Reach
pub mod Draining
pub mod Drained
pub mod Atomic
pub mod Listening
pub mod Serving
pub mod Logging
pub mod Reporting
