-- ===== src/Domain.antt =====
-- internal/domain: tasks, queues and what the data about data holds.
pub mod Json
pub mod Leader
pub mod Metadata
pub mod Queue
pub mod Recurring
pub mod Task
