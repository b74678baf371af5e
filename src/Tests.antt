-- ===== src/Tests.antt =====
-- Concrete runs of the operations, and the theorems at concrete inputs.
pub mod Data
pub mod Saves
pub mod Reads
pub mod Delivery
pub mod Worker
pub mod AdminLog
pub mod Boundaries
pub mod Replays
pub mod UserLog
pub mod Users
pub mod Formats
