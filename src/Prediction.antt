-- ===== src/Prediction.antt =====
-- backend/internal/prediction/trend.go: a linear regression over the ranks of a project's tiers, and
-- what it predicts.
pub mod Fit
pub mod Trend
pub mod Regression
pub mod Signal
mod Tests
