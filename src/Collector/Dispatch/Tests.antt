-- ===== src/Collector/Dispatch/Tests.antt =====
-- Attempts with a destination that is busy, and then one that is not.
use dora_metrics_app.Base.{ℕ, ◌≡◌, refl, false, none, some, []}
use dora_metrics_app.Base.Text.{Text, codes}
use dora_metrics_app.Collector.Destinations.{
  Event, Rule, Parsed, parsed, detect_destination, adapt_request, build_webhook_body,
}
use dora_metrics_app.Collector.Dispatch.{
  found, response, done, retry, skip_retry, Attempt, handle_dispatch_alert,
}
use dora_metrics_app.Collector.Dispatch.Outcome.{IsFair, is_unread, handle_dispatch_alert-IsFair}

abbrev event : Event
event = record {
  id = codes "e1";
  scope_kind = codes "project";
  scope_id = codes "p7";
  previous_tier = some "low";
  current_tier = "high";
  fired_at = 0;
  delivery_status = "pending";
  http_status = none;
  last_error = none;
}

abbrev rule : Rule
rule = record {
  id = codes "r1";
  name = codes "queda";
  kind = codes "tier_change";
  window_days = codes "30";
  webhook_url = codes "https://hooks.example.com/x";
}

abbrev parse : Text → Parsed
parse url = parsed (record { host = codes "hooks.example.com"; routing_key = []; api_key = [] })

abbrev no_date : ℕ → Text
no_date t = []

abbrev attempt : ℕ → Attempt
attempt status =
    handle_dispatch_alert parse no_date (λ q. response status) false (found event) (found rule)

busy_is_retried : (attempt 429).result ≡ retry
unfolding handle_dispatch_alert adapt_request detect_destination build_webhook_body
busy_is_retried = refl

gone_is_given_up : (attempt 410).result ≡ skip_retry
unfolding handle_dispatch_alert adapt_request detect_destination build_webhook_body
gone_is_given_up = refl

accepted_is_done : (attempt 202).result ≡ done
unfolding handle_dispatch_alert adapt_request detect_destination build_webhook_body
accepted_is_done = refl

handle_dispatch_alert-IsFair_example :
    IsFair (λ q. response 202) false (is_unread (found event) (found rule)) (attempt 202)
handle_dispatch_alert-IsFair_example =
    handle_dispatch_alert-IsFair parse no_date (λ q. response 202) false (found event) (found rule)
