-- ===== src/Collector/Compute/Tests.antt =====
-- A project with 60 deployments in 30 days, and one whose queries fail.
use dora_metrics_app.Base.{
  ℕ, zero, suc, ◌≡◌, refl, String, false, Option, none, some, List, [], ◌∷◌, ◌++◌, ◌/◌, ◌%◌, ◌+◌,
  if◌then◌else◌,
}
use dora_metrics_app.Base.Int.{pos, quot}
use dora_metrics_app.Base.Text.{Text, codes, same}
use dora_metrics_app.Float64.Fixed.{Fixed, fixed_float64}
use dora_metrics_app.Tier.{rank}
use dora_metrics_app.Calculator.Classification.{
  Overrides, default_thresholds, classify_deployment_frequency, classify_lead_time,
  classify_change_failure_rate, classify_mttr, worst_of,
}
use dora_metrics_app.Collector.Compute.{
  Result, ok, err, count_deploys, found, no_rows, WindowRows, MetricWindow, compute_window,
  handle_compute_metric_window, thresholds_of,
}

abbrev rows : WindowRows Fixed
rows = record {
  previous = found (some "elite");
  deployments = some 60;
  lead_time = some (9, some (pos 7_200_000_000));
  change_failure_rate = some (60, some (pos 20_000));
  mttr = some (0, some (pos 0));
  threshold_config = no_rows;
  upsert_fails = false;
}

abbrev no_decode : String → Option (Overrides Fixed)
no_decode raw = none

-- The last digits of a number.
abbrev digits : ℕ → ℕ → Text
digits zero n = []
digits (suc places) n = digits places (n / 10) ++ (48 + n % 10) ∷ []

-- A number below a thousand; `none` is NaN. The text itself stands for the NUMERIC.
abbrev print_fixed : ℕ → Fixed → Text
print_fixed places (some (pos n)) = digits 3 (n / 1_000_000) ++ b'.' ∷ digits places n
print_fixed places _ = codes "NaN"

abbrev scan_text : Text → Option Text
scan_text s = if same s (codes "NaN") then none else some s

abbrev tiers : Result (MetricWindow Text × String × String) → List String
tiers (ok (w, before, now)) = before ∷ now ∷ []
tiers (err e) = []

tiers_of_rows :
    tiers (compute_window print_fixed scan_text no_decode 30 rows) ≡ "elite" ∷ "high" ∷ []
unfolding compute_window thresholds_of worst_of rank default_thresholds
    classify_deployment_frequency classify_lead_time classify_change_failure_rate classify_mttr
    fixed_float64 quot same
tiers_of_rows = refl

abbrev frequency_in : Result (MetricWindow Text × String × String) → Option Text
frequency_in (ok (w, before, now)) = some w.deployment_frequency
frequency_in (err e) = none

-- One deployment in 30 days.
rounded :
    frequency_in
      (compute_window print_fixed scan_text no_decode 30 (record rows { deployments = some 1 }))
    ≡ some (codes "000.033333")
unfolding compute_window thresholds_of worst_of rank default_thresholds
    classify_deployment_frequency classify_lead_time classify_change_failure_rate classify_mttr
    fixed_float64 quot same
rounded = refl

failed_query :
    handle_compute_metric_window print_fixed scan_text {P = ℕ} no_decode 30
      (found 7)
      (record rows { deployments = none })
    ≡ err count_deploys
unfolding handle_compute_metric_window compute_window
failed_query = refl
