-- ===== src/Swarm.antt =====
-- cluster/swarm/cluster.go: the engines of the cluster, and what is asked of all of them.
pub mod Registry
pub mod Data
pub mod Discovery
pub mod Views
pub mod Errors
pub mod Create
pub mod Methods
pub mod Images
pub mod Resources
pub mod Watchdog
pub mod Examples
