-- ===== src/Ratchet.antt =====
-- src/cryptography/ratchet.ts: the Double Ratchet of one edge.
pub mod Kdf
pub mod State
pub mod SlotKeys
pub mod Skipping
pub mod Messages
pub mod Checkpoint
pub mod Keys
pub mod Tracking
pub mod Delivery
pub mod AnyOrder
pub mod Exchange
pub mod Bounds
pub mod Bootstrap
pub mod Copies
pub mod Replay
mod Examples
