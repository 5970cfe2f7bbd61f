-- ===== src/Engine.antt =====
-- cluster/engine.go: one Docker engine, its health, and what the manager remembers of it.
pub mod Data
pub mod Health
pub mod Call
pub mod Cache
pub mod Specs
pub mod Float
pub mod Methods
pub mod Connect
pub mod Shares
pub mod Networks
pub mod Mirror
pub mod Keeping
pub mod Examples
