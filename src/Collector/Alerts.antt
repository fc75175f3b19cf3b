-- ===== src/Collector/Alerts.antt =====
-- `fanOutAlertsForTierChange` of backend/internal/collector/handlers.go, with the queries that it runs
-- (`FindMatchingAlertRules` and `InsertAlertEvent` of backend/internal/storage/sql/queries/alerts.sql).
-- Ids are numbers, and the database gives a new event the next one. `insert_fails` and
-- `enqueue_fails` say which insertions and which enqueueings fail; the code logs these and goes on.
pub mod Fired
mod Tests
use dora_metrics_app.Base.{
  ℕ, suc, ◌+◌, String, Bool, true, false, not, ◌&&◌, Option, none, some, List, [], ◌∷◌, ◌++◌, keep,
  ◌==◌, str_eq, if◌then◌else◌,
}
use dora_metrics_app.Tier.{is_change, rule_matches_change}

pub record AlertRule : Type 0 where
  pub id : ℕ
  pub tenant_id : ℕ
  pub name : String
  pub enabled : Bool
  pub kind : String
  pub scope_kind : String
  pub scope_id : Option ℕ
  pub window_days : ℕ
  pub webhook_url : String

pub data DeliveryStatus : Type 0 where
  pending delivered failed : DeliveryStatus

pub record AlertEvent : Type 0 where
  pub id : ℕ
  pub rule_id : ℕ
  pub tenant_id : ℕ
  pub scope_kind : String
  pub scope_id : ℕ
  pub previous_tier : Option String
  pub current_tier : String
  pub delivery_status : DeliveryStatus
  pub http_status : Option ℕ
  pub last_error : Option String

pub record Project : Type 0 where
  pub id : ℕ
  pub tenant_id : ℕ

-- The tables and the queue that the job writes.
pub record AlertStore : Type 0 where
  pub rules : List AlertRule
  pub events : List AlertEvent
  pub next_event_id : ℕ
  pub queue : List ℕ

-- `scope_id IS NULL OR scope_id = $4`
abbrev pub covers_scope : Option ℕ → ℕ → Bool
covers_scope none id = true
covers_scope (some s) id = s == id

abbrev pub covers : Project → ℕ → AlertRule → Bool
covers project window_days rule =
    rule.tenant_id == project.tenant_id
    && (rule.enabled
        && (str_eq rule.scope_kind "project"
            && (rule.window_days == window_days && covers_scope rule.scope_id project.id)))

unfoldable pub find_matching_alert_rules : List AlertRule → Project → ℕ → List AlertRule
find_matching_alert_rules rules project window_days = keep (covers project window_days) rules

abbrev pub str_ptr : String → Option String
str_ptr s = if str_eq s "" then none else some s

abbrev pub new_event : ℕ → AlertRule → Project → String → String → AlertEvent
new_event id rule project previous current = record {
  id = id;
  rule_id = rule.id;
  tenant_id = project.tenant_id;
  scope_kind = "project";
  scope_id = project.id;
  previous_tier = str_ptr previous;
  current_tier = current;
  delivery_status = pending;
  http_status = none;
  last_error = none;
}

module _ (insert_fails : AlertRule → Bool) (enqueue_fails : AlertEvent → Bool) (project : Project)
    (previous current : String) where
  abbrev pub enqueue : AlertStore → AlertEvent → AlertStore
  enqueue s e = if enqueue_fails e then s else record s { queue = s.queue ++ e.id ∷ [] }

  abbrev pub insert_alert_event : AlertStore → AlertEvent → AlertStore
  insert_alert_event s e = record s {
    events = s.events ++ e ∷ [];
    next_event_id = suc s.next_event_id;
  }

  -- One round of the loop, for a rule that covers the project.
  abbrev pub fire : AlertStore → AlertRule → AlertStore
  fire s rule =
      if not (rule_matches_change rule.kind previous current)
      then s
      else if insert_fails rule
      then s
      else let e = new_event s.next_event_id rule project previous current in
        enqueue (insert_alert_event s e) e

  unfoldable pub fire_all : List AlertRule → AlertStore → AlertStore
  unfolding rule_matches_change
  fire_all [] s = s
  fire_all (rule ∷ rules) s = fire_all rules (fire s rule)

  unfoldable pub fan_out_alerts_for_tier_change : ℕ → AlertStore → AlertStore
  unfolding is_change find_matching_alert_rules fire_all
  fan_out_alerts_for_tier_change window_days s =
      if not (is_change previous current)
      then s
      else fire_all (find_matching_alert_rules s.rules project window_days) s
