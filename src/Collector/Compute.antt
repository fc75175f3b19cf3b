-- ===== src/Collector/Compute.antt =====
-- `HandleComputeMetricWindow` of backend/internal/collector/handlers.go. What its queries give is an
-- argument: the aggregates in SQL are not modelled. `decode` stands for `encoding/json`,
-- `print places x` for `fmt.Sprintf` of a float to that many decimals, and `scan` for the `Scan` of
-- a `pgtype.Numeric`, whose values are those of the type `N`.
pub mod Classified
mod Tests
use dora_metrics_app.Base.{
  ℕ, String, Bool, true, false, not, ◌&&◌, Option, none, some, List, [], ◌∷◌, ltb, str_eq,
  if◌then◌else◌,
}
use dora_metrics_app.Base.Int.{ℤ, pos}
use dora_metrics_app.Base.Text.{Text}
use dora_metrics_app.Float64.{Float64}
use dora_metrics_app.Calculator.Classification.{
  Thresholds, Overrides, default_thresholds, from_json, classify_deployment_frequency,
  classify_lead_time, classify_change_failure_rate, classify_mttr, worst_of,
}

pub data TaskError : Type 0 where
  load_project count_deploys lead_time_median change_failure_rate mttr_mean : TaskError
  convert_df upsert_window : TaskError

pub data Result {ℓ} (A : Type ℓ) : Type ℓ where
  ok : A → Result A
  err : TaskError → Result A

-- The early returns of the task: what follows runs on the value, if there was no error.
infixl 5 ◌>>=◌
abbrev pub ◌>>=◌ {ℓ κ} : {A : Type ℓ} {B : Type κ} (r : Result A) (next : A → Result B) → Result B
r >>= next = elim r [ err e ↦ err e | ok value ↦ next value ]

-- A query that gave a row, or failed.
abbrev pub or_fail {ℓ} : {A : Type ℓ} → Option A → TaskError → Result A
or_fail none e = err e
or_fail (some a) e = ok a

abbrev pub fail_if : Bool → TaskError → Result (Unit {0})
fail_if true e = err e
fail_if false e = ok tt

-- What a query by id gives.
pub data Row {ℓ} (A : Type ℓ) : Type ℓ where
  found : A → Row A
  no_rows query_error : Row A

-- A sample size and a value over the sample, after `coerceFloat`.
abbrev pub Sampled {ℓ} : Type ℓ → Type ℓ
Sampled F = ℕ × F

-- `none` is an error of the query.
pub record WindowRows {ℓ} (F : Type ℓ) : Type ℓ where
  pub previous : Row (Option String)
  pub deployments : Option ℕ
  pub lead_time : Option (Sampled F)
  pub change_failure_rate : Option (Sampled F)
  pub mttr : Option (Sampled F)
  pub threshold_config : Row String
  pub upsert_fails : Bool

-- The row of metrics.metric_window. A NUMERIC column that holds nothing is NULL.
pub record MetricWindow {ℓ} (N : Type ℓ) : Type ℓ where
  pub deployment_frequency : N
  pub lead_time_median_s : Option ℤ
  pub change_failure_rate : Option N
  pub mttr_mean_s : Option ℤ
  pub classification : Option String
  pub sample_size : ℕ

-- `previousTier`
abbrev pub tier_before : Row (Option String) → String
tier_before (found (some t)) = t
tier_before (found none) = ""
tier_before no_rows = ""
tier_before query_error = ""

abbrev pub str_ptr : String → Option String
str_ptr s = if str_eq s "" then none else some s

module _ {ℓ} {F : Type ℓ} ⦃f : Float64 F⦄ where
  open f use {of_int, to_int, div}

  abbrev pub when_sampled {κ} : {A : Type κ} → (F → A) → Sampled F → Option A
  when_sampled g (size, value) = if ltb 0 size then some (g value) else none

  abbrev pub or_defaults : Option (Thresholds F) → Thresholds F
  or_defaults none = default_thresholds
  or_defaults (some t) = t

  unfoldable pub thresholds_of : (String → Option (Overrides F)) → Row String → Thresholds F
  unfolding from_json
  thresholds_of decode (found raw) = or_defaults (from_json decode raw)
  thresholds_of decode no_rows = default_thresholds
  thresholds_of decode query_error = default_thresholds

  -- The tiers of the four metrics.
  abbrev pub tiers_of : Thresholds F → F → Sampled F → Sampled F → Sampled F → List String
  tiers_of t df lead cfr mttr =
      classify_deployment_frequency df t
      ∷ classify_lead_time (when_sampled to_int lead) t
      ∷ classify_change_failure_rate (when_sampled (λ v. v) cfr) t
      ∷ classify_mttr (when_sampled to_int mttr) t
      ∷ []

  abbrev pub frequency : ℕ → ℕ → F
  frequency count window_days = div (of_int (pos count)) (of_int (pos window_days))

  module _ {κ} {N : Type κ} (print : ℕ → F → Text) (scan : Text → Option N) where
    -- `none` is an error.
    abbrev pub numeric_from_float : F → Option N
    numeric_from_float x = scan (print 6 x)

    -- A rate that cannot be converted is NULL: the error is dropped.
    abbrev pub numeric_of : Option F → Option N
    numeric_of none = none
    numeric_of (some x) = numeric_from_float x

    abbrev pub window_of :
        Thresholds F → ℕ → F → N → Sampled F → Sampled F → Sampled F → MetricWindow N
    window_of t count df df_numeric lead cfr mttr = record {
      deployment_frequency = df_numeric;
      lead_time_median_s = when_sampled to_int lead;
      change_failure_rate = numeric_of (when_sampled (λ v. v) cfr);
      mttr_mean_s = when_sampled to_int mttr;
      classification = str_ptr (worst_of (tiers_of t df lead cfr mttr));
      sample_size = count;
    }

    -- The part of the task after the project is loaded: the window that it writes, and the two tiers
    -- that it hands to the alerts.
    unfoldable pub compute_window :
        (String → Option (Overrides F))
        → ℕ
        → WindowRows F
        → Result (MetricWindow N × String × String)
    unfolding worst_of thresholds_of
    compute_window decode window_days rows = do
      count ← or_fail rows.deployments count_deploys
      let df = frequency count window_days
      lead ← or_fail rows.lead_time lead_time_median
      cfr ← or_fail rows.change_failure_rate change_failure_rate
      mttr ← or_fail rows.mttr mttr_mean
      let t = thresholds_of decode rows.threshold_config
      df_numeric ← or_fail (numeric_from_float df) convert_df
      _ ← fail_if rows.upsert_fails upsert_window
      ok (
        window_of t count df df_numeric lead cfr mttr,
        tier_before rows.previous,
        worst_of (tiers_of t df lead cfr mttr),
      )

    -- `none` where the project is gone; the rows are those of the project.
    unfoldable pub handle_compute_metric_window {π} :
        {P : Type π}
        → (String → Option (Overrides F))
        → ℕ
        → Row P
        → WindowRows F
        → Result (Option (MetricWindow N × String × String))
    unfolding compute_window
    handle_compute_metric_window decode window_days no_rows rows = ok none
    handle_compute_metric_window decode window_days query_error rows = err load_project
    handle_compute_metric_window decode window_days (found p) rows = do
      w ← compute_window decode window_days rows
      ok (some w)
