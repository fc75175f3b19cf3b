-- ===== src/Api.antt =====
-- backend/internal/api: the HTTP server of the program.
pub mod Alerts
pub mod Tenant
pub mod Webhooks
