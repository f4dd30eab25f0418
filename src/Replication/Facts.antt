-- ===== src/Replication/Facts.antt =====
-- pkg/replication: the facts, each behind its statement.
pub mod Channels
pub mod Members
pub mod Logs
pub mod Variables
