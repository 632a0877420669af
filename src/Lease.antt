-- ===== src/Lease.antt =====
-- enterprise/control/lease.py: the leader lease of the Managers.
pub mod Record
pub mod Leader
pub mod Durable
pub mod State
pub mod Takes
pub mod Terms
pub mod Fleet
