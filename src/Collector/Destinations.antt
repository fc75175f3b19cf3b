-- ===== src/Collector/Destinations.antt =====
-- backend/internal/collector/alert_destinations.go and `buildWebhookBody` of alerts.go: the body of an
-- alert for each destination. Texts are lists of code points, ids are their texts, and an instant is a
-- number of seconds. A JSON body is the list of its leaves with their paths; `json.Marshal` cannot
-- fail on these bodies, so its error branch is left out. `rfc3339` stands for the format of `fired_at`.
pub mod Requests
mod Tests
use mathlib.Core.List.{reverse}
use dora_metrics_app.Base.{
  ℕ, ◌+◌, String, Bool, true, false, not, ◌&&◌, ◌||◌, Option, none, some, List, [], ◌∷◌, ◌++◌, leb,
  ltb, ◌==◌, str_eq, if◌then◌else◌,
}
use dora_metrics_app.Base.Text.{Text, codes, same}
use dora_metrics_app.Tier.{alert_is_promotion}

pub record Event : Type 0 where
  pub id : Text
  pub scope_kind : Text
  pub scope_id : Text
  pub previous_tier : Option String
  pub current_tier : String
  pub fired_at : ℕ
  pub delivery_status : String
  pub http_status : Option ℕ
  pub last_error : Option Text

-- `window_days` is the decimal text of the number.
pub record Rule : Type 0 where
  pub id : Text
  pub name : Text
  pub kind : Text
  pub window_days : Text
  pub webhook_url : Text

pub record Url : Type 0 where
  pub host : Text
  pub routing_key : Text
  pub api_key : Text

abbrev pub Body : Type 0
Body = List (String × Text)

pub record Request : Type 0 where
  pub url : Url
  pub body : Body
  pub authorization : Option Text

pub data DestinationKind : Type 0 where
  dest_pager_duty dest_opsgenie dest_generic : DestinationKind

abbrev starts_with : Text → Text → Bool
starts_with s [] = true
starts_with [] (b ∷ t) = false
starts_with (a ∷ s) (b ∷ t) = a == b && starts_with s t

-- `strings.HasSuffix`
unfoldable pub has_suffix : Text → String → Bool
has_suffix s suffix = starts_with (reverse s) (reverse (codes suffix))

-- What `url.Parse` gives: an error, or a URL.
pub data Parsed : Type 0 where
  parse_error : Text → Parsed
  parsed : Url → Parsed

unfoldable pub detect_destination : Parsed → DestinationKind
unfolding has_suffix
detect_destination (parse_error message) = dest_generic
detect_destination (parsed u) =
    if has_suffix u.host "pagerduty.com"
    then dest_pager_duty
    else if has_suffix u.host "opsgenie.com"
    then dest_opsgenie
    else dest_generic

-- The tier before, or the empty text.
abbrev pub previous_of : Event → String
previous_of e = elim e.previous_tier [ none ↦ "" | some t ↦ t ]

abbrev pub is_promotion : Event → Bool
is_promotion e = alert_is_promotion (previous_of e) e.current_tier

abbrev pub severity : Event → String
severity e =
    if is_promotion e then "info" else if str_eq e.current_tier "low" then "error" else "warning"

abbrev pub event_action : Event → String
event_action e = if is_promotion e then "resolve" else "trigger"

abbrev pub priority : Event → String
priority e = if str_eq e.current_tier "low" then "P2" else "P3"

-- The key goes from the query of the URL to a header.
abbrev pub with_genie_key : Request → Request
with_genie_key q = if same q.url.api_key [] then q else record q {
  authorization = some (codes "GenieKey " ++ q.url.api_key);
  url = record q.url { api_key = [] };
}

abbrev pub set_body : Request → Option Body → Option Request
set_body q none = none
set_body q (some body) = some (record q { body = body })

module _ (rfc3339 : ℕ → Text) where
  abbrev pub webhook_text : Event → Rule → Text
  webhook_text e r =
      codes (if is_promotion e then "📈" else "📉")
      ++ codes " *"
      ++ r.name
      ++ codes "* — classificação DORA "
      ++ codes (if is_promotion e then "subiu" else "regrediu")
      ++ codes " de `"
      ++ codes (previous_of e)
      ++ codes "` para `"
      ++ codes e.current_tier
      ++ codes "` (scope="
      ++ e.scope_kind
      ++ codes ", window="
      ++ r.window_days
      ++ codes "d)"

  unfoldable pub build_webhook_body : Event → Rule → Body
  unfolding alert_is_promotion
  build_webhook_body e r =
      ("text", webhook_text e r)
      ∷ ("alert.event_id", e.id)
      ∷ ("alert.rule_id", r.id)
      ∷ ("alert.rule_name", r.name)
      ∷ ("alert.kind", r.kind)
      ∷ ("alert.scope_kind", e.scope_kind)
      ∷ ("alert.scope_id", e.scope_id)
      ∷ ("alert.previous_tier", codes (previous_of e))
      ∷ ("alert.current_tier", codes e.current_tier)
      ∷ ("alert.window_days", r.window_days)
      ∷ ("alert.fired_at", rfc3339 e.fired_at)
      ∷ []

  -- none is the error of a missing routing key
  unfoldable pub build_pager_duty_body : Event → Rule → Url → Option Body
  unfolding alert_is_promotion same
  build_pager_duty_body e r u =
      if same u.routing_key []
      then none
      else some (
          ("routing_key", u.routing_key)
          ∷ ("event_action", codes (event_action e))
          ∷ ("dedup_key", e.id)
          ∷ (
            "payload.summary",
            codes "["
                ++ r.name
                ++ codes "] DORA "
                ++ codes (previous_of e)
                ++ codes " → "
                ++ codes e.current_tier,
          )
          ∷ ("payload.source", codes "dora-metrics")
          ∷ ("payload.severity", codes (severity e))
          ∷ ("payload.component", codes "dora")
          ∷ ("payload.group", e.scope_kind)
          ∷ ("payload.class", r.kind)
          ∷ ("payload.custom_details.rule_name", r.name)
          ∷ ("payload.custom_details.scope_kind", e.scope_kind)
          ∷ ("payload.custom_details.scope_id", e.scope_id)
          ∷ ("payload.custom_details.previous_tier", codes (previous_of e))
          ∷ ("payload.custom_details.current_tier", codes e.current_tier)
          ∷ ("payload.custom_details.window_days", r.window_days)
          ∷ ("payload.custom_details.fired_at", rfc3339 e.fired_at)
          ∷ [])

  unfoldable pub build_opsgenie_body : Event → Rule → Body
  build_opsgenie_body e r =
      (
        "message",
        codes "DORA "
            ++ r.name
            ++ codes ": "
            ++ codes (previous_of e)
            ++ codes " → "
            ++ codes e.current_tier,
      )
      ∷ ("alias", e.id)
      ∷ (
        "description",
        codes "Classificação DORA do "
            ++ e.scope_kind
            ++ codes " regrediu de "
            ++ codes (previous_of e)
            ++ codes " para "
            ++ codes e.current_tier
            ++ codes ".\nJanela: "
            ++ r.window_days
            ++ codes "d\nScope ID: "
            ++ e.scope_id,
      )
      ∷ ("priority", codes (priority e))
      ∷ ("source", codes "dora-metrics")
      ∷ ("tags.0", codes "dora")
      ∷ ("tags.1", e.scope_kind)
      ∷ ("tags.2", codes e.current_tier)
      ∷ ("details.rule_id", r.id)
      ∷ ("details.window_days", r.window_days)
      ∷ ("details.scope_id", e.scope_id)
      ∷ ("details.fired_at", rfc3339 e.fired_at)
      ∷ []

  -- none is the error of `buildPagerDutyBody`
  unfoldable pub adapt_request : DestinationKind → Request → Event → Rule → Option Request
  unfolding build_pager_duty_body build_opsgenie_body same
  adapt_request dest_generic q e r = some q
  adapt_request dest_pager_duty q e r = set_body q (build_pager_duty_body e r q.url)
  adapt_request dest_opsgenie q e r =
      some (with_genie_key (record q { body = build_opsgenie_body e r }))
