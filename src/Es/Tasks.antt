-- ===== src/Es/Tasks.antt =====
-- internal/infra/elasticsearch/task/service.go
pub mod Persisted
pub mod Queries
pub mod Settings
pub mod Service
pub mod Bulk
pub mod Refresh
pub mod Scan
pub mod Claim
