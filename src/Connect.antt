-- ===== src/Connect.antt =====
-- src/network/connection.rs: how a connection chooses where to send.
pub mod Types
pub mod Probes
pub mod Assess
pub mod Medians
pub mod Pool
pub mod Verdicts
pub mod Settled
pub mod Hearing
pub mod Heard
pub mod Sound
pub mod Routes
pub mod Following
pub mod States
pub mod Monitor
pub mod Watching
pub mod Pings
pub mod Receiving
pub mod Alike
pub mod Kept
pub mod Strangers
mod Tests
