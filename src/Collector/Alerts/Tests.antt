-- ===== src/Collector/Alerts/Tests.antt =====
-- A regression of project 7 from high to low, with five rules.
use dora_metrics_app.Base.{
  ℕ, ◌≡◌, ◌↔◌, refl, String, Bool, true, false, Option, none, some, [], ◌∷◌, map, keep, ◌==◌,
}
use dora_metrics_app.Collector.Alerts.{
  AlertRule, AlertEvent, AlertStore, Project, fan_out_alerts_for_tier_change,
}
use dora_metrics_app.Collector.Alerts.Fired.{Wants, IsFired, fan_out_alerts-IsFired}

abbrev project : Project
project = record { id = 7; tenant_id = 1 }

abbrev rule : ℕ → Bool → String → Option ℕ → AlertRule
rule id enabled kind scope_id = record {
  id = id;
  tenant_id = 1;
  name = "queda";
  enabled = enabled;
  kind = kind;
  scope_kind = "project";
  scope_id = scope_id;
  window_days = 30;
  webhook_url = "https://hooks.example.com/x";
}

abbrev store : AlertStore
store = record {
  rules =
      rule 1 true "tier_regression" none
      ∷ rule 2 true "tier_change" (some 7)
      ∷ rule 3 false "tier_change" none
      ∷ rule 4 true "tier_change" (some 8)
      ∷ rule 5 true "predicted_regression" none
      ∷ [];
  events = [];
  next_event_id = 10;
  queue = [];
}

abbrev never_fails : AlertRule → Bool
never_fails rule = false

-- The queue is away when event 11 comes.
abbrev away : AlertEvent → Bool
away e = e.id == 11

abbrev after : AlertStore
after = fan_out_alerts_for_tier_change never_fails away project "high" "low" 30 store

rules_of_events : map (λ e. e.rule_id) after.events ≡ 1 ∷ 2 ∷ []
unfolding fan_out_alerts_for_tier_change
rules_of_events = refl

queued_events : after.queue ≡ 10 ∷ []
unfolding fan_out_alerts_for_tier_change
queued_events = refl

fan_out_alerts-IsFired_example :
    (wanted : AlertRule → Bool) × ((rule : AlertRule)
      → (wanted rule ≡ true) ↔ Wants never_fails away project "high" "low" 30 rule)
    × IsFired never_fails away project "high" "low" (keep wanted store.rules) store after
fan_out_alerts-IsFired_example =
    fan_out_alerts-IsFired never_fails away project "high" "low" 30 store
