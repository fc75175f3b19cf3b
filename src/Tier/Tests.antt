-- ===== src/Tier/Tests.antt =====
-- Runs of the tables, and the theorems at concrete tiers.
use dora_metrics_app.Base.{◌≡◌, refl, true, false}
use dora_metrics_app.Tier.{is_regression, is_change, rule_matches_change, alert_is_promotion}

runs :
    (is_regression "elite" "low" ≡ true)
    × (is_change "elite" "insufficient_data" ≡ false)
    × (rule_matches_change "tier_change" "low" "high" ≡ true)
    × (rule_matches_change "predicted_regression" "high" "low" ≡ false)
    × (alert_is_promotion "low" "medium" ≡ true)
unfolding is_regression is_change rule_matches_change alert_is_promotion
runs = (refl, refl, refl, refl, refl)
