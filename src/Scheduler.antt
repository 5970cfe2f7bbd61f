-- ===== src/Scheduler.antt =====
-- The scheduler (scheduler/): filters that narrow the list of nodes, and strategies that rank it.
pub mod Node
pub mod Narrow
pub mod Exprs
pub mod Filters
pub mod Strategy
pub mod Select
pub mod Examples
