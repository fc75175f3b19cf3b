-- ===== src/Collector/Dispatch.antt =====
-- `HandleDispatchAlert` of backend/internal/collector/alerts.go: one attempt to deliver an alert event.
-- `parse` stands for `url.Parse` with `Query().Get` of the two parameters that the code reads, and
-- `post` for the HTTP client. The instant `delivered_at` is not modelled.
pub mod Outcome
mod Tests
use dora_metrics_app.Base.{
  ℕ, Bool, true, false, not, ◌&&◌, Option, none, some, List, [], ◌∷◌, ◌++◌, leb, ltb, ◌==◌,
  if◌then◌else◌,
}
use dora_metrics_app.Base.Int.{pos}
use dora_metrics_app.Base.Text.{Text, codes}
use dora_metrics_app.Calculator.Digits.{itoa}
use dora_metrics_app.Collector.Destinations.{
  Event, Rule, Url, Request, Parsed, parse_error, parsed, detect_destination, adapt_request,
  build_webhook_body,
}

-- What a query by id gives.
pub data Load {ℓ} (A : Type ℓ) : Type ℓ where
  found : A → Load A
  no_rows load_error : Load A

pub data PostResult : Type 0 where
  transport_error : Text → PostResult
  response : ℕ → PostResult

-- The result of a task: nil, an error that the queue retries, or one with `asynq.SkipRetry`.
pub data TaskResult : Type 0 where
  done retry skip_retry : TaskResult

-- An attempt: the event's row as it writes it, if it does, the request that it sent, and the result.
pub record Attempt : Type 0 where
  pub update : Option Event
  pub sent : Option Request
  pub result : TaskResult

abbrev decimal : ℕ → Text
decimal n = elim (itoa (pos n)) [ none ↦ [] | some t ↦ t ]

-- `update_fails` says that the update of the row fails.
abbrev pub mark_alert_event_failed : Bool → Option ℕ → Text → Event → Option Event
mark_alert_event_failed update_fails status message e =
    if update_fails
    then none
    else some
        (record e { delivery_status = "failed"; http_status = status; last_error = some message })

abbrev pub mark_alert_event_delivered : Bool → ℕ → Event → Option Event
mark_alert_event_delivered update_fails status e =
    if update_fails
    then none
    else some
        (record e { delivery_status = "delivered"; http_status = some status; last_error = none })

abbrev pub is_success : ℕ → Bool
is_success status = leb 200 status && ltb status 300

-- 4xx, but for 408 and 429
abbrev pub is_permanent : ℕ → Bool
is_permanent status =
    leb 400 status && (ltb status 500 && (not (status == 408) && not (status == 429)))

abbrev pub after_response : Bool → Event → Request → ℕ → Attempt
after_response update_fails e q status =
    if is_success status
    then record {
      update = mark_alert_event_delivered update_fails status e;
      sent = some q;
      result = if update_fails then retry else done;
    }
    else record {
      update =
          mark_alert_event_failed update_fails (some status)
            (codes "webhook returned status " ++ decimal status) e;
      sent = some q;
      result = if is_permanent status then skip_retry else retry;
    }

abbrev pub after_post : Bool → Event → Request → PostResult → Attempt
after_post update_fails e q (transport_error message) = record {
  update = mark_alert_event_failed update_fails none message e;
  sent = some q;
  result = retry;
}
after_post update_fails e q (response status) = after_response update_fails e q status

-- The event is marked failed and nothing is sent.
abbrev pub reject : Bool → Event → Text → TaskResult → Attempt
reject update_fails e message result = record {
  update = mark_alert_event_failed update_fails none message e;
  sent = none;
  result = result;
}

abbrev pub no_attempt : TaskResult → Attempt
no_attempt result = record { update = none; sent = none; result = result }

module _ (parse : Text → Parsed) (rfc3339 : ℕ → Text) (post : Request → PostResult)
    (update_fails : Bool) where
  abbrev pub send_adapted : Event → Option Request → Attempt
  send_adapted e none =
      reject update_fails e (codes "pagerduty: webhook URL precisa ?routing_key=...") skip_retry
  send_adapted e (some q) = after_post update_fails e q (post q)

  abbrev pub send : Event → Rule → Parsed → Attempt
  send e r (parse_error message) = reject update_fails e message skip_retry
  send e r (parsed u) = send_adapted e (
      adapt_request rfc3339 (detect_destination (parsed u))
        (record { url = u; body = build_webhook_body rfc3339 e r; authorization = none }) e r)

  abbrev pub with_rule : Event → Load Rule → Attempt
  with_rule e no_rows = reject update_fails e (codes "alert rule deleted before dispatch") done
  with_rule e load_error = no_attempt retry
  with_rule e (found r) = send e r (parse r.webhook_url)

  -- `rule` is what the query for the event's rule gives.
  unfoldable pub handle_dispatch_alert : Load Event → Load Rule → Attempt
  unfolding itoa
  handle_dispatch_alert no_rows rule = no_attempt done
  handle_dispatch_alert load_error rule = no_attempt retry
  handle_dispatch_alert (found e) rule = with_rule e rule
