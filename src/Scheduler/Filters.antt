-- ===== src/Scheduler/Filters.antt =====
-- scheduler/filter: the seven filters, and the batch of them.
pub mod Base
pub mod Simple
pub mod Placement
pub mod Port
pub mod Batch
pub mod Laws
pub mod Returning
pub mod Lawful
pub mod Standard
pub mod Matching
pub mod Ports
pub mod Names
