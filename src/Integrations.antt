-- ===== src/Integrations.antt =====
-- backend/internal/integrations: connections to other services.
pub mod Atlassian
