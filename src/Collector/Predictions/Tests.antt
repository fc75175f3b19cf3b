-- ===== src/Collector/Predictions/Tests.antt =====
-- Two runs on one day, for a project that falls.
use dora_metrics_app.Base.{
  ℕ, ◌≡◌, ◌≤◌, ◌*◌, refl, String, Bool, true, false, Option, none, some, List, [], ◌∷◌, arith,
}
use dora_metrics_app.Base.Int.{pos}
use dora_metrics_app.Float64.Fixed.{Fixed, fixed_float64}
use dora_metrics_app.Prediction.Trend.{Sample, predict}
use dora_metrics_app.Collector.Alerts.{AlertRule}
use dora_metrics_app.Collector.Predictions.{Scope, PredictedStore, handle_predict_weekly}
use dora_metrics_app.Collector.Predictions.Daily.{today, handle_predict_weekly_once}

abbrev scope : Scope
scope = record { id = 7; tenant_id = 1; scope_kind = "project" }

abbrev rule : AlertRule
rule = record {
  id = 5;
  tenant_id = 1;
  name = "tendência";
  enabled = true;
  kind = "predicted_regression";
  scope_kind = "project";
  scope_id = none;
  window_days = 30;
  webhook_url = "https://hooks.example.com/x";
}

abbrev sample : ℕ → String → Sample
sample n tier = record { t = pos (n * 604_800_000_000); tier = tier }

abbrev falling : Scope → Option (List Sample)
falling _ = some (
    sample 0 "elite"
    ∷ sample 1 "elite"
    ∷ sample 2 "high"
    ∷ sample 3 "high"
    ∷ sample 4 "medium"
    ∷ sample 5 "medium"
    ∷ [])

abbrev never : AlertRule → Bool
never _ = false

abbrev run : ℕ → PredictedStore → PredictedStore
run now s = handle_predict_weekly never never now Fixed falling (scope ∷ []) s

abbrev before : PredictedStore
before = record { rules = rule ∷ []; events = []; next_event_id = 1; queue = [] }

queue_of_two_runs : (run 990_000 (run 950_500 before)).queue ≡ 1 ∷ []
unfolding handle_predict_weekly predict fixed_float64
queue_of_two_runs = refl

queue_of_next_day : (run 1_100_000 (run 950_500 before)).queue ≡ 1 ∷ 2 ∷ []
unfolding handle_predict_weekly predict fixed_float64
queue_of_next_day = refl

handle_predict_weekly_once_example : today 5 7 950_500 (run 950_500 before) ≤ 1
handle_predict_weekly_once_example =
    handle_predict_weekly_once Fixed never never 950_500 falling 5 7 (scope ∷ []) before
      (omega arith)
