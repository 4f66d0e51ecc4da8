-- ===== src/Bridge.antt =====
-- The simulator bridge's frames: crates/uf-core/src/bridge.rs.
pub mod Wire
pub mod Reader
pub mod Frame
pub mod Codec
pub mod Validity
pub mod Reads
mod RoundTrip
mod Sound
mod Steps
mod Canonical
pub mod Stream
pub mod Replay
mod Tests
