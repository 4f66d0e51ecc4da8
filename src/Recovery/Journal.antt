-- ===== src/Recovery/Journal.antt =====
-- The append log of recovery: crates/uf-daemon/src/ddr_recovery_journal.rs.
pub mod Checksum
pub mod Frame
pub mod Scan
pub mod Layout
pub mod Chain
pub mod Head
pub mod Numerals
pub mod HeadTrip
pub mod Store
pub mod Append
pub mod HeadText
pub mod Ledger
pub mod Ops
pub mod Grow
pub mod Grown
pub mod Appends
pub mod Faults
mod Tests
pub mod Fuel
