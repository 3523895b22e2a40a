-- ===== src/Registry.antt =====
-- src/gnr/db: the tables, the audit of the whole registry, the alias ledger and the session.
pub mod Models
pub mod Violations
pub mod Validate
pub mod Session
pub mod Ledger
pub mod Keeps
pub mod Reads
pub mod Inserts
pub mod Consistency
pub mod Growth
