-- ===== src/Recovery.antt =====
-- Recovery of the DDR broker: crates/uf-daemon/src/ddr_recovery_audit.rs, ddr_recovery_journal.rs and
-- ddr_recovery_durable.rs.
pub mod Audit
pub mod Journal
pub mod Durable
