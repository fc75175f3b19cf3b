-- ===== src/Collector.antt =====
-- backend/internal/collector: the jobs that link merge requests and incidents to deployments, and
-- that raise and deliver alerts.
pub mod Correlation
pub mod Jira
pub mod Incidents
pub mod Alerts
pub mod Destinations
pub mod Dispatch
pub mod Compute
pub mod Jobs
pub mod Predictions
pub mod Digest
pub mod Gitlab
