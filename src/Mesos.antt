-- ===== src/Mesos.antt =====
-- cluster/mesos: the agents of a Mesos master, their offers, and the tasks that run on them.
pub mod Agents
pub mod Offers
pub mod Tasks
pub mod Views
pub mod Launch
pub mod Naming
pub mod Entries
pub mod Busy
pub mod Examples
