-- ===== src/Api.antt =====
-- The HTTP interface: internal/api and internal/infra/server/routing.
pub mod Models
pub mod Recurring
pub mod Tasks
