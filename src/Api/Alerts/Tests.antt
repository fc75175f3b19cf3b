-- ===== src/Api/Alerts/Tests.antt =====
-- Examples of the alert rules and events.
use dora_metrics_app.Base.{◌≡◌, refl, true, false, none, some, List, [], ◌∷◌, All}
use dora_metrics_app.Base.Int.{pos}
use dora_metrics_app.Base.Text.{codes, same}
use dora_metrics_app.Collector.Dispatch.{found}
use dora_metrics_app.Api.Alerts.{
  CreateRequest, UpdateRequest, World, handle_create_alert_rule, handle_update_alert_rule, limit_of,
}
use dora_metrics_app.Api.Alerts.Constraints.{IsAllowed}
use dora_metrics_app.Api.Alerts.Rules.{
  Operation, create, update, step, run, run-IsAllowed, is_error, step_error,
}

abbrev world : World
world = record {
  parse_uuid = λ s. some 5;
  find = λ slug. found 9;
  now = pos 100;
  new_id = 5;
  query_fails = false;
}

abbrev wanted : CreateRequest
wanted = record {
  tenant = codes "acme";
  name = codes " falls ";
  enabled = none;
  kind = "tier_regression";
  scope_kind = "project";
  scope_id = none;
  window_days = pos 30;
  webhook_url = codes "https://hook";
}

abbrev operations : List Operation
operations = create world (some wanted) ∷ update world (codes "5") (some change) ∷ []
  where
    change : UpdateRequest
    change = record {
      name = none;
      enabled = some false;
      kind = none;
      scope_kind = none;
      scope_id = none;
      window_days = some (pos 7);
      webhook_url = some [];
    }

-- An update may leave a rule without a URL.
run_example :
    run [] operations
    ≡ record {
      id = 5;
      tenant_id = 9;
      name = codes "falls";
      enabled = false;
      kind = "tier_regression";
      scope_kind = "project";
      scope_id = none;
      window_days = pos 7;
      webhook_url = [];
      created_at = pos 100;
      updated_at = pos 100;
    }
      ∷ []
unfolding handle_create_alert_rule handle_update_alert_rule same
run_example = refl

run-IsAllowed_example : All IsAllowed (run [] operations)
run-IsAllowed_example = run-IsAllowed [] operations tt

abbrev odd_window : Operation
odd_window = create world (some (record wanted { window_days = pos 31 }))

odd_window_refused : is_error (step (run [] operations) odd_window).1 ≡ true
unfolding handle_create_alert_rule same
odd_window_refused = refl

step_error_example : (step (run [] operations) odd_window).0 ≡ run [] operations
step_error_example = step_error (run [] operations) odd_window odd_window_refused

limit_examples : (limit_of (codes "20") ≡ 20) × (limit_of (codes "501") ≡ 50) × (limit_of [] ≡ 50)
unfolding limit_of same
limit_examples = (refl, refl, refl)
