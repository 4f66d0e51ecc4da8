-- ===== src/Provider.antt =====
-- The provider contract: crates/uf-core/src/provider.rs.
pub mod Types
pub mod Operation
pub mod Completion
pub mod Registry
pub mod Lookup
pub mod Names
mod Tests
