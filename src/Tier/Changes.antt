-- ===== src/Tier/Changes.antt =====
-- Regressions, promotions and changes between tiers (`alerts.RuleMatchesChange` and the rest).
use dora_metrics_app.Base.{◌≡◌, String, false, not, ◌&&◌, ◌||◌, arith, str_eq, eq_iff}
use dora_metrics_app.Tier.{tier_order, is_regression, is_change, alert_is_promotion, is_tier}

-- A change between known tiers is a regression or a promotion, and never both; where one of the two
-- tiers is not known there is none of the three.
pub change_is_regression_or_promotion :
    (previous current : String)
    → (is_change previous current
        ≡ (is_regression previous current || alert_is_promotion previous current))
      × ((is_regression previous current && alert_is_promotion previous current) ≡ false)
      × (is_change previous current
          ≡ (is_tier previous && is_tier current && not (str_eq previous current)))
unfolding is_change is_regression alert_is_promotion tier_order
change_is_regression_or_promotion previous current = ground (
  arith,
  eq_iff previous current,
  eq_iff previous "elite",
  eq_iff previous "high",
  eq_iff previous "medium",
  eq_iff previous "low",
  eq_iff current "elite",
  eq_iff current "high",
  eq_iff current "medium",
  eq_iff current "low",
)
