-- ===== src/Core.antt =====
-- src/core: levels, audit records, list order and the write queue that services share.
pub mod Levels
pub mod Ordering
pub mod RowTable
pub mod Platform
pub mod WriteQueue
