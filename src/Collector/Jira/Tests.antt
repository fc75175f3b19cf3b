-- ===== src/Collector/Jira/Tests.antt =====
-- A Jira of three issues in two pages, a directory of three users, an MCP service that has no such
-- tool, and a collection.
use dora_metrics_app.Base.{
  ℕ, zero, suc, String, ◌≡◌, refl, inr, Bool, true, false, Option, none, some, List, [], ◌∷◌, arith,
  map, concat, drop, take, keep,
}
use dora_metrics_app.Base.Int.{ℤ, pos}
use dora_metrics_app.Base.Text.{Text, codes, same}
use dora_metrics_app.Base.Dict
use dora_metrics_app.Integrations.Atlassian.{not_connected}
use dora_metrics_app.Collector.Dispatch.{found}
use dora_metrics_app.Collector.Incidents.{DeploymentRow}
use dora_metrics_app.Collector.Jira.{
  Issue, IssueShape, RawIssue, McpError, Reply, unsent, answered, Result, ok, SearchResponse,
  IssueService, decode_issue, received, search_issues,
}
use dora_metrics_app.Collector.Jira.Pages.{
  Serves, last, next, first, decode_all, expected, search_issues-Serves,
}
use dora_metrics_app.Collector.Jira.Ends.{Ends, search_issues-Ends}
use dora_metrics_app.Collector.Jira.Users.{User, UserService, search_users}
use dora_metrics_app.Collector.Jira.Users.Directory.{Lists, is_person, search_users-Lists}
use dora_metrics_app.Collector.Jira.Mcp.{
  McpService, Codec, McpSource, mcp_search_issues, initialize_client, call,
}
use dora_metrics_app.Collector.Jira.Fallback.{Answers, mcp_search_issues-Answers}
use dora_metrics_app.Collector.Jira.Collect.{
  Store, Project, Handlers, handle_collect_jira, mcp_token,
}
use dora_metrics_app.Collector.Jira.Collect.Stored.{
  Holds, no_faults, over_rest, query_of, NoMcp, handle_collect_jira-Holds,
}

-- A clock that reads the number of characters.
abbrev parse : Text → Text → Option ℤ
parse layout [] = none
parse layout (c ∷ s) = some (pos c)

abbrev shape : String → IssueShape
shape key = record {
  key = codes key;
  summary = codes "down";
  project_key = codes "ACME";
  issue_type = codes "Incident";
  status = codes "Done";
  status_category = codes "done";
  priority = [];
  labels = none;
  created = codes "2026";
  resolution_date = some (codes "2026");
}

abbrev raw : String → RawIssue
raw key = record { bytes = codes key; shape = some (shape key) }

abbrev page_one : List RawIssue
page_one = raw "ACME-1" ∷ raw "ACME-2" ∷ []

abbrev page_two : List RawIssue
page_two = raw "ACME-3" ∷ []

abbrev to_next : SearchResponse
to_next = record { next_page_token = codes "n"; is_last = false; issues = page_one }

abbrev at_end : SearchResponse
at_end = record { next_page_token = []; is_last = true; issues = page_two }

abbrev reply : ℕ → Reply SearchResponse
reply zero = answered 200 [] (some to_next)
reply (suc n) = answered 200 [] (some at_end)

abbrev jira : IssueService
jira call request = reply call

serves : (jql : Text) → Serves jira jql 0 [] (page_one ∷ page_two ∷ [])
unfolding same
serves jql =
    next 0 [] [] 200 to_next (page_two ∷ []) refl refl refl
      (last 1 (codes "n") [] 200 at_end refl refl refl)

search_issues-Serves_example :
    search_issues parse jira 2 (codes "q") (pos 0)
    ≡ some (expected parse (pos 0) (concat (page_one ∷ page_two ∷ [])))
search_issues-Serves_example =
    search_issues-Serves parse jira (codes "q") (page_one ∷ page_two ∷ []) 2 (pos 0)
      (serves (codes "q")) (omega arith)

abbrev keys : Option (Result (List Issue)) → List Text
keys (some (ok is)) = map (λ i. i.key) is
keys _ = []

three_keys :
    keys (search_issues parse jira 2 (codes "q") (pos 0))
    ≡ codes "ACME-1" ∷ codes "ACME-2" ∷ codes "ACME-3" ∷ []
unfolding search_issues decode_issue same
three_keys = refl

search_issues-Ends_example : Ends 2 (search_issues parse jira 5 (codes "q") (pos 2))
search_issues-Ends_example = search_issues-Ends parse jira (codes "q") 1 5 (omega arith)

abbrev user : String → String → Bool → User
user name kind active = record {
  account_id = codes name;
  account_type = codes kind;
  display_name = codes name;
  email_address = [];
  active = active;
}

abbrev users : List User
users = user "ana" "atlassian" true ∷ user "bot" "app" true ∷ user "gil" "" false ∷ []

abbrev directory : UserService
directory call request = answered 200 [] (some (take 100 (drop request.start_at users)))

directory-Lists : Lists directory [] users
unfolding received
directory-Lists call start = refl

search_users-Lists_example :
    search_users directory 1 [] (pos 0) ≡ some (ok (first (pos 0) (keep is_person users)))
search_users-Lists_example =
    search_users-Lists directory [] users 1 (pos 0) directory-Lists (omega arith)

-- No reply comes from the MCP service.
abbrev silent : McpService
silent request = unsent

abbrev codec : Codec
codec = record { version = λ _. none; tool_result = λ _. none; issues = λ _. none }

abbrev source : McpSource
source = record {
  client = record { endpoint = codes "e"; token = codes "t"; next_id = pos 0 };
  fallback = some (λ jql limit. search_issues parse jira 2 jql limit);
  initialized = false;
}

mcp_search_issues-Answers_example :
    Answers parse codec silent false source
      (codes "q")
      (pos 0)
      (mcp_search_issues parse codec silent source (codes "q") (pos 0))
mcp_search_issues-Answers_example =
    mcp_search_issues-Answers parse codec silent source (codes "q") (pos 0)

abbrev handlers : Handlers
handlers = record {
  jira_mcp_url = [];
  jira_mcp_token = codes "t";
  parse = parse;
  codec = codec;
  mcp = silent;
  rest = λ email token. λ jql limit. none;
  date_before = λ n. codes "2026-01-01";
}

abbrev project : Project
project = record {
  id = 7;
  jira_project_keys = codes "ACME" ∷ [];
  incident_jql = codes "issuetype = Incident";
}

abbrev empty_store : Store
empty_store = record { incidents = Dict.empty; links = [] }

silent_NoMcp :
    NoMcp handlers (mcp_token (some not_connected) (codes "t")) (query_of handlers project 0)
unfolding initialize_client
silent_NoMcp = inr (McpError.not_sent, refl)

abbrev deployments : List DeploymentRow
deployments =
    record {
      id = 4;
      project_id = 7;
      is_production = true;
      status = "success";
      finished_at = some (pos 20);
    }
    ∷ []

abbrev decoded : String → Issue
decoded key = record {
  key = codes key;
  project_key = codes "ACME";
  summary = codes "down";
  issue_type = codes "Incident";
  status = codes "Done";
  status_category = codes "done";
  priority = [];
  labels = [];
  created = pos 50;
  resolved = some (pos 50);
  raw = codes key;
}

abbrev issues : List Issue
issues = decoded "ACME-1" ∷ decoded "ACME-2" ∷ decoded "ACME-3" ∷ []

all_decoded : decode_all parse (concat (page_one ∷ page_two ∷ [])) ≡ some issues
unfolding decode_issue same
all_decoded = refl

handle_collect_jira-Holds_example : Holds deployments 7 empty_store issues (
    handle_collect_jira
      (over_rest handlers (λ email token. jira) 2)
      no_faults
      deployments
      empty_store
      (found project)
      (found (record { token = some (codes "k"); email = some (codes "a@b") }))
      (some not_connected)
      0)
handle_collect_jira-Holds_example =
    handle_collect_jira-Holds handlers (λ email token. jira) 2 deployments empty_store project
      (codes "k") (codes "a@b") (some not_connected) 0 (page_one ∷ page_two ∷ []) issues refl
      silent_NoMcp (serves (query_of handlers project 0)) (omega arith) all_decoded
