-- ===== src/Collector/Predictions/Daily.antt =====
-- The events of one day under runs of the weekly prediction (backend/internal/collector/predict.go).
use dora_metrics_app.Base.{
  ℕ, ◌/◌, count_mono, ◌+◌, ◌≤◌, ◌≡◌, refl, sym, ap, ◌∙◌, String, Bool, true, false, ◌&&◌, Option,
  none, some, length, List, [], ◌∷◌, keep, count, count-append, arith, ltb, ◌==◌, if◌then◌else◌,
  Bool-cases, inl, inr,
}
use dora_metrics_app.Float64.{Float64}
use dora_metrics_app.Prediction.Trend.{Sample, predict, min_samples_for_prediction}
use dora_metrics_app.Collector.Alerts.{AlertRule}
use dora_metrics_app.Collector.Predictions.{
  Scope, PredictedEvent, PredictedStore, is_today, exists_today, predicts_for, with_event,
  fire_rule, fire_rules, fire_prediction_alert, for_samples, handle_predict_weekly, is_falling,
}

exists_count :
    (es : List PredictedEvent) (rule_id scope_id now : ℕ)
    → exists_today es rule_id scope_id now ≡ ltb 0 (count (is_today rule_id scope_id now) es)
exists_count [] rule_id scope_id now = ground arith
exists_count (e ∷ es) rule_id scope_id now = ground (arith, exists_count es rule_id scope_id now)

-- An event of the rule and the scope on the day of an instant, with the days counted from 1970.
abbrev pub is_on_day : ℕ → ℕ → ℕ → PredictedEvent → Bool
is_on_day rule_id scope_id now e =
    e.rule_id == rule_id && (e.scope_id == scope_id && e.fired_at / 86_400 == now / 86_400)

abbrev pub today : ℕ → ℕ → ℕ → PredictedStore → ℕ
today rule_id scope_id now s = count (is_on_day rule_id scope_id now) s.events

-- An event of the day is one that the query finds.
on_day-is_today :
    (rule_id scope_id now : ℕ) (e : PredictedEvent)
    → is_on_day rule_id scope_id now e ≡ true
    → is_today rule_id scope_id now e ≡ true
on_day-is_today rule_id scope_id now e h = ground arith

module _ (insert_fails enqueue_fails : AlertRule → Bool) (now : ℕ) (rule_id scope_id : ℕ) where
  abbrev of_pair : Scope → AlertRule → Bool
  of_pair scope rule = rule.id == rule_id && scope.id == scope_id

  with_event-count :
      (s : PredictedStore) (scope : Scope) (tier : String) (rule : AlertRule)
      → today rule_id scope_id now (with_event insert_fails enqueue_fails now s scope tier rule)
        ≡ today rule_id scope_id now s + (if of_pair scope rule then 1 else 0)
  with_event-count s scope tier rule =
      count-append (is_on_day rule_id scope_id now) s.events _ ∙ ground arith

  -- Where the test finds no event for the pair of the rule and the scope, the pair has none.
  none_today :
      (s : PredictedStore) (scope : Scope) (rule : AlertRule)
      → exists_today s.events rule.id scope.id now ≡ false
      → of_pair scope rule ≡ true
      → today rule_id scope_id now s ≡ 0
  none_today s scope rule absent same =
      let of_rule : rule.id ≡ rule_id = ground (arith, same) in
      let of_scope : scope.id ≡ scope_id = ground (arith, same) in
      let gone : exists_today s.events rule_id scope_id now ≡ false =
        ap (λ r. exists_today s.events r scope_id now) (sym of_rule)
        ∙ ap (λ c. exists_today s.events rule.id c now) (sym of_scope)
        ∙ absent in
      omega (
        arith,
        no_more (exists_today s.events rule_id scope_id now) gone
            (exists_count s.events rule_id scope_id now),
        count_mono (is_on_day rule_id scope_id now) (is_today rule_id scope_id now) s.events
            (on_day-is_today rule_id scope_id now),
      )
    where
      no_more : (b : Bool) {n : ℕ} → b ≡ false → b ≡ ltb 0 n → n ≡ 0
      no_more b e h = ground arith

  fire_rule_once :
      (s : PredictedStore) (scope : Scope) (tier : String) (rule : AlertRule)
      → today rule_id scope_id now s ≤ 1
      → today rule_id scope_id now (fire_rule insert_fails enqueue_fails now s scope tier rule) ≤ 1
  fire_rule_once s scope tier rule h =
      elim (Bool-cases (exists_today s.events rule.id scope.id now)) [
        | inl e ↦ rw e h
        | inr e ↦ elim (Bool-cases (insert_fails rule)) [
          | inl i ↦ rw (e, i) h
          | inr i ↦
              rw (e, i)
                (rw (with_event-count s scope tier rule) (
                  one_more (of_pair scope rule) (today rule_id scope_id now s) h
                    (none_today s scope rule e)))
        ]
      ]
    where
      one_more : (b : Bool) (n : ℕ) → n ≤ 1 → (b ≡ true → n ≡ 0) → n + (if b then 1 else 0) ≤ 1
      one_more true n h k = omega (arith, k refl)
      one_more false n h k = omega arith

  fire_rules_once :
      (rules : List AlertRule) (scope : Scope) (tier : String) (s : PredictedStore)
      → today rule_id scope_id now s ≤ 1
      → today rule_id scope_id now (fire_rules insert_fails enqueue_fails now rules scope tier s)
        ≤ 1
  unfolding fire_rules
  fire_rules_once [] scope tier s h = h
  fire_rules_once (rule ∷ rules) scope tier s h =
      fire_rules_once rules scope tier (fire_rule insert_fails enqueue_fails now s scope tier rule)
        (fire_rule_once s scope tier rule h)

  fire_alert_once :
      (scope : Scope) (tier : String) (s : PredictedStore)
      → today rule_id scope_id now s ≤ 1
      → today rule_id scope_id now
          (fire_prediction_alert insert_fails enqueue_fails now scope tier s)
        ≤ 1
  unfolding fire_prediction_alert
  fire_alert_once scope tier s h =
      fire_rules_once (keep (predicts_for scope) s.rules) scope tier s h

module _ {ℓ} (F : Type ℓ) ⦃f : Float64 F⦄ (insert_fails enqueue_fails : AlertRule → Bool) (now : ℕ)
    (samples : Scope → Option (List Sample)) (rule_id scope_id : ℕ) where
  for_samples_once :
      (scope : Scope) (o : Option (List Sample)) (s : PredictedStore)
      → today rule_id scope_id now s ≤ 1
      → today rule_id scope_id now (for_samples insert_fails enqueue_fails now F samples scope o s)
        ≤ 1
  for_samples_once scope none s h = h
  for_samples_once scope (some xs) s h =
      elim (Bool-cases (ltb (length xs) min_samples_for_prediction)) [
        | inl e ↦ rw e h
        | inr e ↦ elim (Bool-cases (is_falling {F = F} (predict xs))) [
          | inl d ↦
              rw (e, d)
                (fire_alert_once insert_fails enqueue_fails now rule_id scope_id scope _ s h)
          | inr d ↦ rw (e, d) h
        ]
      ]

  -- A run of the weekly job leaves at most one predicted event of a rule and a scope on its day, if
  -- there was at most one before it, so that runs on one day do not add up, whatever the scopes, their
  -- samples, and the insertions and enqueueings that fail.
  pub handle_predict_weekly_once :
      (scopes : List Scope) (s : PredictedStore)
      → today rule_id scope_id now s ≤ 1
      → today rule_id scope_id now
          (handle_predict_weekly insert_fails enqueue_fails now F samples scopes s)
        ≤ 1
  unfolding handle_predict_weekly
  handle_predict_weekly_once [] s h = h
  handle_predict_weekly_once (scope ∷ scopes) s h =
      handle_predict_weekly_once scopes
        (for_samples insert_fails enqueue_fails now F samples scope (samples scope) s)
        (for_samples_once scope (samples scope) s h)
