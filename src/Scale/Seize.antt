-- ===== src/Scale/Seize.antt =====
-- Seizing the resources of other apps (cluster/swarm/resource_filter.go and task_filter.go).
pub mod Data
pub mod Grow
pub mod Pools
pub mod Loops
pub mod Bounds
pub mod Walk
pub mod Priority
