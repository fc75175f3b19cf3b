-- ===== src/Collector/Predictions.antt =====
-- `HandlePredictWeekly` and `firePredictionAlert` of backend/internal/collector/predict.go, with the
-- queries of the latter. Times are in seconds of UTC. `insert_fails` and `enqueue_fails` say which
-- insertions and enqueueings fail, which the code logs; `samples` is what `loadPredictionSamples`
-- gives, none where it fails.
pub mod Daily
mod Tests
use dora_metrics_app.Base.{
  ℕ, suc, ◌+◌, ◌-◌, ◌%◌, String, Bool, true, false, not, ◌&&◌, ◌||◌, Option, none, some, List, [],
  ◌∷◌, ◌++◌, length, keep, leb, ltb, ◌==◌, str_eq, if◌then◌else◌,
}
use dora_metrics_app.Float64.{Float64}
use dora_metrics_app.Prediction.Trend.{Sample, Prediction, min_samples_for_prediction, predict}
use dora_metrics_app.Collector.Alerts.{AlertRule, covers_scope}

pub record Scope : Type 0 where
  pub id : ℕ
  pub tenant_id : ℕ
  pub scope_kind : String

pub record PredictedEvent : Type 0 where
  pub id : ℕ
  pub rule_id : ℕ
  pub scope_id : ℕ
  pub fired_at : ℕ
  pub current_tier : String

pub record PredictedStore : Type 0 where
  pub rules : List AlertRule
  pub events : List PredictedEvent
  pub next_event_id : ℕ
  pub queue : List ℕ

-- `date_trunc('day', now())`
abbrev pub day_start : ℕ → ℕ
day_start now = now - now % 86_400

abbrev pub is_today : ℕ → ℕ → ℕ → PredictedEvent → Bool
is_today rule_id scope_id now e =
    e.rule_id == rule_id && (e.scope_id == scope_id && leb (day_start now) e.fired_at)

abbrev pub exists_today : List PredictedEvent → ℕ → ℕ → ℕ → Bool
exists_today [] rule_id scope_id now = false
exists_today (e ∷ es) rule_id scope_id now =
    is_today rule_id scope_id now e || exists_today es rule_id scope_id now

abbrev pub predicts_for : Scope → AlertRule → Bool
predicts_for scope rule =
    rule.tenant_id == scope.tenant_id
    && (rule.enabled
        && (str_eq rule.kind "predicted_regression"
            && (str_eq rule.scope_kind scope.scope_kind && covers_scope rule.scope_id scope.id)))

abbrev pub is_falling {ℓ} : {F : Type ℓ} → Prediction F → Bool
is_falling p = str_eq p.direction "degrading" && not (str_eq p.confidence "low")

module _ (insert_fails enqueue_fails : AlertRule → Bool) (now : ℕ) where
  abbrev pub with_event : PredictedStore → Scope → String → AlertRule → PredictedStore
  with_event s scope tier rule = record s {
    events =
        s.events
        ++ record {
          id = s.next_event_id;
          rule_id = rule.id;
          scope_id = scope.id;
          fired_at = now;
          current_tier = tier;
        }
          ∷ [];
    next_event_id = suc s.next_event_id;
    queue = if enqueue_fails rule then s.queue else s.queue ++ s.next_event_id ∷ [];
  }

  -- One round of the loop over the rules.
  abbrev pub fire_rule : PredictedStore → Scope → String → AlertRule → PredictedStore
  fire_rule s scope tier rule =
      if exists_today s.events rule.id scope.id now
      then s
      else if insert_fails rule
      then s
      else with_event s scope tier rule

  unfoldable pub fire_rules : List AlertRule → Scope → String → PredictedStore → PredictedStore
  fire_rules [] scope tier s = s
  fire_rules (rule ∷ rules) scope tier s = fire_rules rules scope tier (fire_rule s scope tier rule)

  unfoldable pub fire_prediction_alert : Scope → String → PredictedStore → PredictedStore
  unfolding fire_rules
  fire_prediction_alert scope tier s = fire_rules (keep (predicts_for scope) s.rules) scope tier s

  module _ {ℓ} (F : Type ℓ) ⦃f : Float64 F⦄ (samples : Scope → Option (List Sample)) where
    abbrev pub for_samples : Scope → Option (List Sample) → PredictedStore → PredictedStore
    for_samples scope none s = s
    for_samples scope (some xs) s =
        if ltb (length xs) min_samples_for_prediction
        then s
        else let p : Prediction F = predict xs in
          if is_falling p then fire_prediction_alert scope p.current_tier s else s

    unfoldable pub handle_predict_weekly : List Scope → PredictedStore → PredictedStore
    unfolding fire_prediction_alert predict
    handle_predict_weekly [] s = s
    handle_predict_weekly (scope ∷ scopes) s =
        handle_predict_weekly scopes (for_samples scope (samples scope) s)
