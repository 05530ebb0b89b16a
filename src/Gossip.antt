-- ===== src/Gossip.antt =====
-- protocol/gossip.
pub mod TimeCache
pub mod Backoff
pub mod History
pub mod Promises
pub mod Config
pub mod Router
mod Tests
pub mod Score
