-- ===== src/PqHealing/Examples.antt =====
-- Runs of the PQ healing machine of one edge on concrete records.
pub mod Records
pub mod Sessions
pub mod Phases
pub mod Histories
pub mod Exchange
