-- ===== src/Collector/Destinations/Tests.antt =====
-- An event that falls to low, and where it goes.
use dora_metrics_app.Base.{ℕ, ◌≡◌, refl, none, some, []}
use dora_metrics_app.Base.Text.{Text, codes}
use dora_metrics_app.Collector.Destinations.{
  Event, Rule, Url, Request, parsed, DestinationKind, dest_pager_duty, dest_opsgenie,
  detect_destination, build_opsgenie_body, with_genie_key,
}

abbrev pub event : Event
event = record {
  id = codes "e1";
  scope_kind = codes "project";
  scope_id = codes "p7";
  previous_tier = some "high";
  current_tier = "low";
  fired_at = 0;
  delivery_status = "pending";
  http_status = none;
  last_error = none;
}

abbrev pub rule : Rule
rule = record {
  id = codes "r1";
  name = codes "queda";
  kind = codes "tier_change";
  window_days = codes "30";
  webhook_url = codes "https://api.opsgenie.com/v2/alerts?api_key=k";
}

abbrev pub opsgenie_url : Url
opsgenie_url = record { host = codes "api.opsgenie.com"; routing_key = []; api_key = codes "k" }

abbrev pub no_date : ℕ → Text
no_date t = []

abbrev opsgenie_host : DestinationKind
opsgenie_host = detect_destination (parsed opsgenie_url)

opsgenie_host_is : opsgenie_host ≡ dest_opsgenie
unfolding detect_destination
opsgenie_host_is = refl

-- The comparison is on the end of the host alone, with no dot in front.
lookalike_host :
    detect_destination
      (parsed (record { host = codes "notpagerduty.com"; routing_key = []; api_key = [] }))
    ≡ dest_pager_duty
unfolding detect_destination
lookalike_host = refl

abbrev before : Request
before = record { url = opsgenie_url; body = []; authorization = none }

abbrev after : Request
after = with_genie_key (record before { body = build_opsgenie_body no_date event rule })
