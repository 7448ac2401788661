-- ===== src/Cover.antt =====
-- src/handlers/coverScheduler.ts: the scheduler that sends a cell at every slot of a fixed timetable,
-- real ones where jobs have them and dummies elsewhere.
pub mod Schedule
pub mod Jobs
pub mod State
pub mod Cycle
pub mod Sending
pub mod Control
pub mod Counts
pub mod Books
pub mod Moves
pub mod Arrivals
pub mod Holding
pub mod Opening
pub mod Boundaries
pub mod Sends
pub mod Methods
pub mod Restarts
pub mod Soundness
pub mod Slots
mod Examples
