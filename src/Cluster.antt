-- ===== src/Cluster.antt =====
-- The data that the scale subsystem and the scheduler share: containers and their configuration
-- (cluster/container.go, cluster/config.go and the API types they embed), engines, labels.
pub mod Data
pub mod Config
pub mod Containers
pub mod Images
pub mod Examples
