-- ===== src/Es/Recurring.antt =====
-- internal/infra/elasticsearch/task/recurring/service.go: the recurring tasks in Elasticsearch.
pub mod Persisted
pub mod Queries
pub mod Service
pub mod Scan
