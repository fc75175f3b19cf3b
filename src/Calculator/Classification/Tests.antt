-- ===== src/Calculator/Classification/Tests.antt =====
-- Runs of the classification, and the theorems at concrete metrics.
use dora_metrics_app.Base.{◌≡◌, refl, String, List, [], ◌∷◌, some}
use dora_metrics_app.Base.Int.{pos}
use dora_metrics_app.Float64.Fixed.{Fixed, fixed_float64}
use dora_metrics_app.Calculator.Classification.{
  Thresholds, default_thresholds, classify_deployment_frequency, classify_lead_time,
  classify_change_failure_rate, classify_mttr, worst_of,
}
use dora_metrics_app.Calculator.Classification.Worst.{tier_of, least_rank, worst_of-eq-least}

abbrev mixed : List String
mixed = "elite" ∷ "insufficient_data" ∷ "medium" ∷ "high" ∷ []

worst_of-mixed : worst_of mixed ≡ "medium"
unfolding worst_of
worst_of-mixed = refl

abbrev defaults : Thresholds Fixed
defaults = default_thresholds

runs :
    (classify_deployment_frequency (some (pos 500_000)) defaults ≡ "high")
    × (classify_lead_time (some (pos 3600)) defaults ≡ "high")
    × (classify_mttr (some (pos 90000)) defaults ≡ "medium")
    × (classify_change_failure_rate (some (some (pos 50_000))) defaults ≡ "elite")
unfolding classify_deployment_frequency classify_lead_time classify_mttr
    classify_change_failure_rate default_thresholds fixed_float64
runs = (refl, refl, refl, refl)

worst_of-eq-least_example : worst_of mixed ≡ tier_of (least_rank mixed)
worst_of-eq-least_example = worst_of-eq-least mixed
