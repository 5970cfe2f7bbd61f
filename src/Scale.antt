-- ===== src/Scale.antt =====
-- The scale subsystem (cluster/swarm: filter.go, task.go, task_filter.go, resource_filter.go,
-- utils.go).
pub mod Ring
pub mod Tasks
pub mod Env
pub mod Match
pub mod Select
pub mod Seize
pub mod Run
pub mod Examples
