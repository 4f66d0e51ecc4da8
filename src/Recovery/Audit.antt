-- ===== src/Recovery/Audit.antt =====
-- The replay of recovery obligations: crates/uf-daemon/src/ddr_recovery_audit.rs.
pub mod Types
pub mod State
pub mod Backings
pub mod Views
pub mod Works
pub mod Apply
pub mod Moves
pub mod BackingMoves
pub mod ViewMoves
pub mod WorkMoves
pub mod Demands
pub mod Guards
pub mod BackingGuards
pub mod ViewGuards
pub mod WorkGuards
pub mod Refines
pub mod Totals
pub mod Runs
pub mod Budget
pub mod Integrity
pub mod Links
pub mod Holders
pub mod Checkpoint
pub mod Exposure
pub mod Finality
mod Tests
