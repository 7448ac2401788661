-- ===== src/PqHealing.antt =====
-- src/cryptography/pqHealing.ts: sparse post-quantum healing of one authenticated peer edge.
pub mod Record
pub mod Codec
pub mod Machine
pub mod Offering
pub mod Answering
pub mod Snapshot
pub mod Ownership
pub mod Session
pub mod Examples
