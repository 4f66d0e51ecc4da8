-- ===== src/Mock.antt =====
-- The mock provider: crates/uf-daemon/src/providers/mock.rs.
pub mod State
pub mod Execute
pub mod Invariant
pub mod Ranges
pub mod Effects
pub mod Preserve
pub mod Panics
pub mod Sharing
pub mod Submit
pub mod Completions
pub mod Delivery
pub mod Runs
mod Tests
