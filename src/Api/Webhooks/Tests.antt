-- ===== src/Api/Webhooks/Tests.antt =====
-- A merge request, a pipeline and a stranger at the webhook of GitLab, and an issue of two projects at
-- that of Jira.
use dora_metrics_app.Base.{ℕ, ◌≡◌, ◌≢◌, refl, ◌⊎◌, true, some, List, [], ◌∷◌, map, arith, String}
use dora_metrics_app.Base.Text.{Text, codes, same, strip_prefix}
use dora_metrics_app.Collector.Dispatch.{Load, found}
use dora_metrics_app.Collector.Jobs.{collect_gitlab}
use dora_metrics_app.Api.Webhooks.{
  State, unauthorized, Project, GitlabRequest, handle_gitlab_webhook, verify_jira_hmac, JiraRequest,
  handle_jira_webhook, decode_hex,
}
use dora_metrics_app.Api.Webhooks.Checked.{
  no_faults, ShowsToken, handle_gitlab_webhook-ShowsToken, Collects, handle_jira_webhook-Collects,
}

abbrev empty_state : State
empty_state = record { raw_events = []; queue = [] }

abbrev lookup : ℕ → Load Project
lookup n = found (record { id = n; tenant_id = 1 })

abbrev hook : String → String → GitlabRequest
hook token event = record {
  token = codes token;
  event = codes event;
  body = some (codes "{}");
  project = 7;
  external_id = codes "7";
}

queues :
    map
      (λ r. (handle_gitlab_webhook no_faults (codes "t") lookup empty_state r).0.queue)
      (hook "t" "Merge Request Hook" ∷ hook "t" "Pipeline Hook" ∷ hook "u" "Deployment Hook" ∷ [])
    ≡ (collect_gitlab 7 0 ∷ []) ∷ [] ∷ [] ∷ []
unfolding handle_gitlab_webhook same
queues = refl

handle_gitlab_webhook-ShowsToken_example :
    ((codes "t" ≡ []) ⊎ (codes "u" ≢ codes "t"))
      × (handle_gitlab_webhook no_faults (codes "t") lookup empty_state (hook "u" "Deployment Hook")
          ≡ (empty_state, unauthorized))
    ⊎ ShowsToken (codes "t") (hook "u" "Deployment Hook")
      × ((handle_gitlab_webhook no_faults
            (codes "t")
            lookup
            empty_state
            (hook "u" "Deployment Hook")).1
          ≢ unauthorized)
handle_gitlab_webhook-ShowsToken_example =
    handle_gitlab_webhook-ShowsToken no_faults (codes "t") lookup empty_state
      (hook "u" "Deployment Hook")

-- In place of HMAC-SHA256.
abbrev hmac : Text → Text → Text
hmac secret body = 222 ∷ 173 ∷ []

abbrev signature : Text
signature = codes "sha256=DEad"

verifies : verify_jira_hmac hmac (codes "{}") signature (codes "k") ≡ true
unfolding verify_jira_hmac strip_prefix same decode_hex
verifies = refl

abbrev issue : JiraRequest
issue = record {
  signature = signature;
  body = some (codes "{}");
  event = codes "jira:issue_created";
  issue_key = codes "ACME-1";
  project_key = codes "ACME";
}

abbrev projects : List Project
projects = record { id = 7; tenant_id = 1 } ∷ record { id = 8; tenant_id = 2 } ∷ []

handle_jira_webhook-Collects_example :
    Collects hmac
      (codes "k")
      empty_state
      issue
      (codes "{}")
      projects
      (handle_jira_webhook no_faults hmac (codes "k") (λ key. some projects) empty_state issue)
handle_jira_webhook-Collects_example =
    handle_jira_webhook-Collects hmac (codes "k") (λ key. some projects) empty_state issue
      (codes "{}") projects refl (ground arith) refl
