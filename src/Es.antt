-- ===== src/Es.antt =====
-- internal/infra/elasticsearch: what is kept in Elasticsearch, and the services over it.
pub mod Client
pub mod Common
pub mod Leader
pub mod Recurring
pub mod Tasks
