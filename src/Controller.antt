-- ===== src/Controller.antt =====
-- src/controller/engine: the serialized controller loop, one file for each of its modules.
pub mod Pump
pub mod State
pub mod Queue
pub mod Handoff
pub mod Placement
pub mod Submission
pub mod Results
pub mod Identity
pub mod Shutdown
pub mod Loop
pub mod Ownership
