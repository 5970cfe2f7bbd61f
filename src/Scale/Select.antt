-- ===== src/Scale/Select.antt =====
-- cluster/swarm/filter.go: which containers a scale item is about. A filter object is its fields, and
-- `Filter` returns the new value of `f.containers`, which `AddTasks` reads. What `Filter` itself
-- returns is only logged.
pub mod Base
pub mod Kinds
pub mod Groups
