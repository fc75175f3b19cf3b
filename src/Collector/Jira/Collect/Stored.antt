-- ===== src/Collector/Jira/Collect/Stored.antt =====
-- What a collection of Jira incidents leaves in the tables, from the pages of the service on.
use mathlib.Core.Path.{subst}
use dora_metrics_app.Base.{
  ℕ, ◌≤◌, ◌≡◌, refl, sym, ap, ◌∙◌, ◌⊎◌, inl, inr, Bool, true, false, Option, none, some, List, [],
  ◌∷◌, arith, if◌then◌else◌, length, All, concat, is_nil, Bool-cases, Option-cases,
}
use dora_metrics_app.Base.Int.{ℤ, pos}
use dora_metrics_app.Base.Text.{Text, same, same_refl}
use dora_metrics_app.Base.Dict
use dora_metrics_app.Base.Dict.{Dict}
use dora_metrics_app.Integrations.Atlassian.{TokenResult}
use dora_metrics_app.Collector.Dispatch.{found, TaskResult, done}
use dora_metrics_app.Collector.Incidents.{DeploymentRow}
use dora_metrics_app.Collector.Jira.{Issue, RawIssue, IssueService, search_issues, McpError}
use dora_metrics_app.Collector.Jira.Pages.{Serves, decode_all, search_issues-Serves}
use dora_metrics_app.Collector.Jira.Mcp.{fails, new_atlassian_client, Source}
use dora_metrics_app.Collector.Jira.Fallback.{tool_issues, owed, mcp_search_issues-Answers}
use dora_metrics_app.Collector.Jobs.{jira_window_days}
use dora_metrics_app.Collector.Jira.Collect.{
  IncidentRow, Store, Faults, upsert_incident, incident_row, updated, has_link, upsert_link,
  cause_of, collect_issue, collect_issues, Project, Handlers, mcp_token, mcp_source, jql_of,
  search_source, handle_collect_jira,
}

-- No query fails.
abbrev pub no_faults : Faults
no_faults = record { upsert = λ _. false; find = λ _. false; link = λ _. false }

-- The status of a row and when it was resolved.
abbrev pub status_of : Option IncidentRow → Option (Text × Option ℤ)
status_of none = none
status_of (some r) = some (r.status, r.resolved_at)

-- What the last issue with a key says, or else what was known before.
abbrev pub last_status : Text → Option (Text × Option ℤ) → List Issue → Option (Text × Option ℤ)
last_status key before [] = before
last_status key before (i ∷ is) =
    last_status key (if same i.key key then some (i.status, i.resolved) else before) is

abbrev pub is_linked_to : Option DeploymentRow → Text → List (ℕ × Text) → Bool
is_linked_to none key links = true
is_linked_to (some d) key links = has_link d.id key links

status_of-upsert :
    (rows : Dict IncidentRow) (i : Issue) (key : Text)
    → status_of (Dict.get (upsert_incident rows i) key)
      ≡ (if same i.key key then some (i.status, i.resolved) else status_of (Dict.get rows key))
status_of-upsert rows i key =
    ground (arith, Dict.get-put rows i.key key (updated (Dict.get rows i.key) (incident_row i)))

has_link-upsert :
    (d e : ℕ) (k j : Text) (links : List (ℕ × Text))
    → has_link d k links ≡ true
    → has_link d k (upsert_link e j links) ≡ true
unfolding has_link
has_link-upsert d e k j links h = ground arith

has_link-upsert_self :
    (d : ℕ) (k : Text) (links : List (ℕ × Text)) → has_link d k (upsert_link d k links) ≡ true
unfolding has_link
has_link-upsert_self d k links = ground (arith, same_refl k)

module _ (deployments : List DeploymentRow) (project : ℕ) where
  -- An issue is linked to the deployment that may have caused it, if there is one.
  abbrev pub Ties : List (ℕ × Text) → Issue → Type 0
  Ties links i = is_linked_to (cause_of deployments project i) i.key links ≡ true

  -- A round without a failing query: it goes on, with the row written, the issue tied and the other
  -- links kept.
  record Round (s : Store) (i : Issue) (out : Store × Bool) : Type 0 where
    goes_on : out.1 ≡ true
    rows : out.0.incidents ≡ upsert_incident s.incidents i
    tied : Ties out.0.links i
    keeps : (d : ℕ) (k : Text) → has_link d k s.links ≡ true → has_link d k out.0.links ≡ true

  collect_issue-Round :
      (s : Store) (i : Issue) → Round s i (collect_issue no_faults deployments project s i)
  unfolding collect_issue
  collect_issue-Round s i = elim (Option-cases (cause_of deployments project i)) [
    | inl e ↦ rw e (record { goes_on = refl; rows = refl; tied = rw e refl; keeps = λ d k h. h })
    | inr (d, e) ↦ rw e (record {
      goes_on = refl;
      rows = refl;
      tied = rw e (has_link-upsert_self d.id i.key s.links);
      keeps = λ c k h. has_link-upsert c d.id k i.key s.links h;
    })
  ]

  -- A store after issues were collected from another one.
  abbrev pub Holds : Store → List Issue → Store × TaskResult → Type 0
  Holds s issues (s', result) =
      (result ≡ done)
      × ((key : Text)
          → status_of (Dict.get s'.incidents key)
            ≡ last_status key (status_of (Dict.get s.incidents key)) issues)
      × All (Ties s'.links) issues
      × ((d : ℕ) (k : Text) → has_link d k s.links ≡ true → has_link d k s'.links ≡ true)

  Ties-keeps :
      (links links' : List (ℕ × Text)) (i : Issue)
      → ((d : ℕ) (k : Text) → has_link d k links ≡ true → has_link d k links' ≡ true)
      → Ties links i
      → Ties links' i
  Ties-keeps links links' i keeps tied = elim (Option-cases (cause_of deployments project i)) [
    | inl e ↦ rw e refl
    | inr (d, e) ↦ rw e (keeps d.id i.key (rw e at tied))
  ]

  after : Store → Issue → Store
  after s i = (collect_issue no_faults deployments project s i).0

  collect_issues-next :
      (s : Store) (i : Issue) (is : List Issue)
      → collect_issues no_faults deployments project s (i ∷ is)
        ≡ collect_issues no_faults deployments project (after s i) is
  unfolding collect_issues after
  collect_issues-next s i is = rw (collect_issue-Round s i).goes_on refl

  collect_issues-Holds :
      (s : Store) (issues : List Issue)
      → Holds s issues (collect_issues no_faults deployments project s issues)
  collect_issues-Holds s [] = unfold collect_issues in (refl, λ key. refl, tt, λ d k h. h)
  collect_issues-Holds s (i ∷ is) =
      let (over, rows, ties, keeps) = collect_issues-Holds (after s i) is in
      subst (Holds s (i ∷ is)) (sym (collect_issues-next s i is)) (
        over,
        λ key. rows key ∙ ap (λ b. last_status key b is) (known key),
        (
          Ties-keeps (after s i).links
              (collect_issues no_faults deployments project (after s i) is).0.links i keeps
              (unfold after in r.tied),
          ties,
        ),
        λ d k h. keeps d k (unfold after in r.keeps d k h),
      )
    where
      r : Round s i (collect_issue no_faults deployments project s i)
      r = collect_issue-Round s i

      known :
          (key : Text)
          → status_of (Dict.get (after s i).incidents key) ≡ (
              if same i.key key
              then some (i.status, i.resolved)
              else status_of (Dict.get s.incidents key))
      known key = unfold after in rw r.rows (status_of-upsert s.incidents i key)

-- The MCP service is not used, or fails: in the handshake, the call of the tool or its answer.
abbrev pub NoMcp : Handlers → Text → Text → Type 0
NoMcp h token jql =
    (token ≡ [])
    ⊎ ((e : McpError) × (tool_issues h.codec h.mcp false (new_atlassian_client h.jira_mcp_url token)
            jql (pos 0)
          ≡ fails e))

search_source-rest :
    (h : Handlers) (oauth : Option TokenResult) (rest : Source) (jql : Text)
    → NoMcp h (mcp_token oauth h.jira_mcp_token) jql
    → search_source h oauth rest jql ≡ rest jql (pos 0)
unfolding search_source
search_source-rest h oauth rest jql (inl none_there) =
    let t : same (mcp_token oauth h.jira_mcp_token) [] ≡ true =
      ap (λ s. same s []) none_there ∙ same_refl [] in
    rw t refl
search_source-rest h oauth rest jql (inr (e, broken)) =
    elim (Bool-cases (same (mcp_token oauth h.jira_mcp_token) [])) [
      | inl t ↦ rw t refl
      | inr f ↦ rw f (
          (mcp_search_issues-Answers h.parse h.codec h.mcp
            (mcp_source h (mcp_token oauth h.jira_mcp_token) rest) jql (pos 0)).0
          ∙ ap (owed h.parse (some rest) jql (pos 0)) broken)
    ]

-- The handlers over a REST service that is searched with so much fuel.
abbrev pub over_rest : Handlers → (Text → Text → IssueService) → ℕ → Handlers
over_rest h jira fuel = record h {
  rest = λ email token. λ jql limit. search_issues h.parse (jira email token) fuel jql limit;
}

-- The query of a project.
abbrev pub query_of : Handlers → Project → ℕ → Text
query_of h p days =
    jql_of p.incident_jql p.jira_project_keys (h.date_before (jira_window_days days))

-- A collection for a project with keys and with the credentials of a Jira, where no query fails and
-- the REST service gives the issues of the project's query in pages, which all decode, and where the
-- MCP service is not used or fails: it succeeds; each key has the status and the resolution of its
-- last issue, and other keys what they had; each issue is linked to the deployment that may have
-- caused it; and no link is lost.
pub handle_collect_jira-Holds :
    (h : Handlers) (jira : Text → Text → IssueService) (fuel : ℕ) (deployments : List DeploymentRow)
    (s : Store) (p : Project) (token email : Text) (oauth : Option TokenResult) (days : ℕ)
    (pages : List (List RawIssue)) (issues : List Issue)
    → is_nil p.jira_project_keys ≡ false
    → NoMcp h (mcp_token oauth h.jira_mcp_token) (query_of h p days)
    → Serves (jira email token) (query_of h p days) 0 [] pages
    → length pages ≤ fuel
    → decode_all h.parse (concat pages) ≡ some issues
    → Holds deployments p.id s issues (
        handle_collect_jira
          (over_rest h jira fuel)
          no_faults
          deployments
          s
          (found p)
          (found (record { token = some token; email = some email }))
          oauth
          days)
unfolding handle_collect_jira
handle_collect_jira-Holds h jira fuel deployments s p token email oauth days pages issues keys
      no_mcp serves enough decoded =
    rw
      (
        keys,
        search_source-rest (over_rest h jira fuel) oauth
            (λ jql limit. search_issues h.parse (jira email token) fuel jql limit)
            (query_of h p days) no_mcp,
        search_issues-Serves h.parse (jira email token) (query_of h p days) pages fuel (pos 0)
            serves enough,
        decoded,
      )
      (collect_issues-Holds deployments p.id s issues)
