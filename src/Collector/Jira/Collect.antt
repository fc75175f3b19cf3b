-- ===== src/Collector/Jira/Collect.antt =====
-- `HandleCollectJira` of backend/internal/collector/handlers.go: a collection of Jira incidents, from the
-- choice of the source to the stored rows and their links, with `UpsertIncident` and
-- `UpsertDeploymentIncidentLink` of backend/internal/storage/sql/queries. Rows are keyed by the issue,
-- since one task has one source instance. Tasks whose payload does not parse are left out.
pub mod Stored
use dora_metrics_app.Base.{
  ℕ, ◌+◌, Bool, true, false, not, ◌&&◌, Option, none, some, List, [], ◌∷◌, ◌++◌, map, ◌==◌, is_nil,
  if◌then◌else◌,
}
use dora_metrics_app.Base.Int.{ℤ, pos, ◌-ℤ◌}
use dora_metrics_app.Base.Text.{Text, codes, same}
use dora_metrics_app.Base.Dict
use dora_metrics_app.Base.Dict.{Dict}
use dora_metrics_app.Integrations.Atlassian.{TokenResult, access}
use dora_metrics_app.Collector.Dispatch.{
  Load, found, no_rows, load_error, TaskResult, done, retry, skip_retry,
}
use dora_metrics_app.Collector.Incidents.{
  DeploymentRow, find_deployment_for_incident, incident_link_lookback,
}
use dora_metrics_app.Collector.Jira.{Issue, Result, ok, err}
use dora_metrics_app.Collector.Jobs.{jira_window_days}
use dora_metrics_app.Collector.Jira.Mcp.{
  Codec, McpService, Source, McpSource, new_atlassian_client, mcp_search_issues,
}

pub record IncidentRow : Type 0 where
  pub jira_project_key : Text
  pub summary : Text
  pub status : Text
  pub status_category : Text
  pub priority : Option Text
  pub issuetype : Option Text
  pub labels : List Text
  pub created_at : ℤ
  pub resolved_at : Option ℤ
  pub raw_payload : Text

-- The rows by issue key, and the links as a deployment with an issue key.
pub record Store : Type 0 where
  pub incidents : Dict IncidentRow
  pub links : List (ℕ × Text)

abbrev pub str_ptr : Text → Option Text
str_ptr s = if same s [] then none else some s

abbrev pub incident_row : Issue → IncidentRow
incident_row i = record {
  jira_project_key = i.project_key;
  summary = i.summary;
  status = i.status;
  status_category = i.status_category;
  priority = str_ptr i.priority;
  issuetype = str_ptr i.issue_type;
  labels = i.labels;
  created_at = i.created;
  resolved_at = i.resolved;
  raw_payload = i.raw;
}

-- `ON CONFLICT DO UPDATE`: the project key and the instant of creation stay.
abbrev pub updated : Option IncidentRow → IncidentRow → IncidentRow
updated none r = r
updated (some old) r = record r {
  jira_project_key = old.jira_project_key;
  created_at = old.created_at;
}

abbrev pub upsert_incident : Dict IncidentRow → Issue → Dict IncidentRow
upsert_incident rows i = Dict.put rows i.key (updated (Dict.get rows i.key) (incident_row i))

unfoldable pub has_link : ℕ → Text → List (ℕ × Text) → Bool
has_link deployment key [] = false
has_link deployment key ((d, k) ∷ links) =
    let rest = has_link deployment key links in if d == deployment && same k key then true else rest

abbrev pub upsert_link : ℕ → Text → List (ℕ × Text) → List (ℕ × Text)
upsert_link deployment key links =
    if has_link deployment key links then links else (deployment, key) ∷ links

-- The issues at which a query fails.
pub record Faults : Type 0 where
  pub upsert : Text → Bool
  pub find : Text → Bool
  pub link : Text → Bool

abbrev pub cause_of : List DeploymentRow → ℕ → Issue → Option DeploymentRow
cause_of deployments project i =
    find_deployment_for_incident deployments project i.created (i.created -ℤ incident_link_lookback)

abbrev pub link_found : Faults → Store → Issue → Option DeploymentRow → Store × Bool
link_found faults s i none = (s, true)
link_found faults s i (some d) =
    if faults.link i.key
    then (s, false)
    else (record s { links = upsert_link d.id i.key s.links }, true)

module _ (faults : Faults) (deployments : List DeploymentRow) (project : ℕ) where
  -- One round of the loop, with whether it goes on.
  unfoldable pub collect_issue : Store → Issue → Store × Bool
  unfolding has_link
  collect_issue s i =
      if faults.upsert i.key
      then (s, false)
      else let s' = record s { incidents = upsert_incident s.incidents i } in
        if faults.find i.key
        then (s', false)
        else link_found faults s' i (cause_of deployments project i)

  unfoldable pub collect_issues : Store → List Issue → Store × TaskResult
  unfolding collect_issue
  collect_issues s [] = (s, done)
  collect_issues s (i ∷ is) =
      let (s', goes_on) = collect_issue s i in
      let rest = collect_issues s' is in if goes_on then rest else (s', retry)

-- `AccessToken` of the tenant, where the connections are configured.
abbrev pub oauth_token : Option TokenResult → Text
oauth_token (some (access token)) = token
oauth_token _ = []

abbrev pub mcp_token : Option TokenResult → Text → Text
mcp_token oauth static_token =
    if same (oauth_token oauth) [] then static_token else oauth_token oauth

abbrev join : Text → List Text → Text
join sep [] = []
join sep (s ∷ []) = s
join sep (s ∷ t ∷ ts) = s ++ (sep ++ join sep (t ∷ ts))

unfoldable pub quote_each : List Text → List Text
quote_each keys = map (λ k. codes "\"" ++ (k ++ codes "\"")) keys

unfoldable pub jql_of : Text → List Text → Text → Text
unfolding quote_each
jql_of incident_jql keys since =
    codes "("
    ++ (incident_jql
        ++ (codes ") AND project in ("
            ++ (join (codes ", ") (quote_each keys)
                ++ (codes ") AND created >= \"" ++ (since ++ codes "\" ORDER BY created ASC")))))

-- The project of a task, as far as the job reads it.
pub record Project : Type 0 where
  pub id : ℕ
  pub jira_project_keys : List Text
  pub incident_jql : Text

-- The credentials of the tenant's Jira; none is an error of the secret provider.
pub record JiraInstance : Type 0 where
  pub token : Option Text
  pub email : Option Text

-- What the handlers hold: the URL and the token of the MCP service, and the rest of the world.
pub record Handlers : Type 0 where
  pub jira_mcp_url : Text
  pub jira_mcp_token : Text
  pub parse : Text → Text → Option ℤ
  pub codec : Codec
  pub mcp : McpService
  -- the REST source for an e-mail and a token
  pub rest : Text → Text → Source
  -- the date so many days ago
  pub date_before : ℕ → Text

abbrev pub mcp_source : Handlers → Text → Source → McpSource
mcp_source h token rest = record {
  client = new_atlassian_client h.jira_mcp_url token;
  fallback = some rest;
  initialized = false;
}

-- The search of the source that is chosen.
unfoldable pub search_source :
    Handlers → Option TokenResult → Source → Text → Option (Result (List Issue))
search_source h oauth rest jql =
    if same (mcp_token oauth h.jira_mcp_token) []
    then rest jql (pos 0)
    else (mcp_search_issues h.parse h.codec h.mcp
        (mcp_source h (mcp_token oauth h.jira_mcp_token) rest) jql (pos 0)).1

module _ (h : Handlers) (faults : Faults) (deployments : List DeploymentRow) where
  -- The search is none only where its fuel ran out.
  abbrev pub store_found : Store → Project → Option (Result (List Issue)) → Store × TaskResult
  store_found s p none = (s, retry)
  store_found s p (some (err e)) = (s, retry)
  store_found s p (some (ok issues)) = collect_issues faults deployments p.id s issues

  abbrev pub with_credentials :
      Store → Project → Option TokenResult → ℕ → Option Text → Option Text → Store × TaskResult
  with_credentials s p oauth days none email = (s, retry)
  with_credentials s p oauth days (some token) none = (s, retry)
  with_credentials s p oauth days (some token) (some email) = store_found s p (
      search_source h oauth (h.rest email token)
        (jql_of p.incident_jql p.jira_project_keys (h.date_before (jira_window_days days))))

  abbrev pub with_instance :
      Store → Project → Option TokenResult → ℕ → Load JiraInstance → Store × TaskResult
  with_instance s p oauth days no_rows = (s, done)
  with_instance s p oauth days load_error = (s, retry)
  with_instance s p oauth days (found i) = with_credentials s p oauth days i.token i.email

  unfoldable pub handle_collect_jira :
      Store → Load Project → Load JiraInstance → Option TokenResult → ℕ → Store × TaskResult
  unfolding search_source jql_of collect_issues jira_window_days
  handle_collect_jira s no_rows instances oauth days = (s, done)
  handle_collect_jira s load_error instances oauth days = (s, retry)
  handle_collect_jira s (found p) instances oauth days =
      if is_nil p.jira_project_keys then (s, done) else with_instance s p oauth days instances
