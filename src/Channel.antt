-- ===== src/Channel.antt =====
-- The pool of pinned transfer lanes: crates/uf-daemon/src/transfer_channel.rs.
pub mod State
pub mod Reap
pub mod Acquire
pub mod Lanes
pub mod Shrinks
pub mod Reaped
pub mod Leases
pub mod Safety
pub mod Passes
pub mod Pool
pub mod Ids
pub mod Holders
pub mod Stats
pub mod Guarantees
pub mod WithLane
pub mod Exclusive
mod Tests
