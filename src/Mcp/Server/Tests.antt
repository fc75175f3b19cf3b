-- ===== src/Mcp/Server/Tests.antt =====
-- A server with a static token and an authorization server that issued one token, and a database of one
-- team.
use dora_metrics_app.Base.{
  ℕ, String, ◌≡◌, ◌↔◌, refl, true, false, Option, none, some, [], ◌∷◌, ◌++◌, arith, map,
  if◌then◌else◌,
}
use dora_metrics_app.Base.Int.{pos}
use dora_metrics_app.Base.Text.{codes, same, strip_prefix}
use dora_metrics_app.Base.Dict
use dora_metrics_app.Collector.Dispatch.{found, no_rows}
use dora_metrics_app.Mcp.OAuth.{OAuthServer, validate_token, handle_revoke}
use dora_metrics_app.Mcp.OAuth.Tokens.{revocation_of}
use dora_metrics_app.Mcp.Tools.{Window, Db, Format, TeamsArgs, metrics_of}
use dora_metrics_app.Mcp.Tools.Trend.{narrative, narrative-lasting, lasting}
use dora_metrics_app.Mcp.Server.{
  good, Codec, World, Server, HttpRequest, rpc, serve_http, bearer, dispatch, check_auth,
  error_response, err_method_not_found,
}
use dora_metrics_app.Mcp.Server.Access.{
  Accepted, is_served, serve_http-Accepted, revoked_is_refused,
}
use dora_metrics_app.Mcp.Server.Answers.{Answers, dispatch-Answers}

-- The number of a float is its value here.
abbrev fmt : Format ℕ
fmt = record {
  rfc3339 = λ t. codes "2026-01-01T00:00:00Z";
  decimal = λ n. codes "n";
  fixed_2 = λ x. x ∷ [];
  percent_1 = λ x. x ∷ [];
  minutes = λ n. codes "n";
  hours = λ n. codes "n";
  days = λ n. codes "n";
}

abbrev window : Window ℕ
window = record {
  computed_at = pos 5;
  sample_size = pos 9;
  lead_time_median_s = some (pos 7200);
  mttr_mean_s = none;
  classification = some (codes "high");
  deployment_frequency = some 2;
  change_failure_rate = none;
}

abbrev db : Db ℕ
db = record {
  get_project = λ id. no_rows;
  get_team = λ id. if same id (codes "t-1") then found (codes "acme") else no_rows;
  get_latest_metric_window = λ tenant kind id days. found window;
}

abbrev codec : Codec ℕ
codec = record {
  call_params = λ s. good (s, []);
  uri_param = λ s. good s;
  scope_args = λ s. none;
  teams_args = λ s. none;
  output = λ o. good [];
  metrics = λ m. [];
  error_text = λ e. codes "error";
}

abbrev world : World ℕ
world = record { db = db; fmt = fmt; parse_uuid = λ s. some s; codec = codec }

abbrev oauth : OAuthServer
oauth = record {
  clients = Dict.empty;
  pending_codes = Dict.empty;
  active_tokens =
      Dict.put Dict.empty (codes "abc")
        (record { client_id = codes "c"; scope = codes "read"; expires_at = 100 });
  operator_token = codes "op";
}

abbrev server : Option OAuthServer → Server
server o = record { token = codes "fixed"; oauth = o }

abbrev request : String → String → HttpRequest
request shown name = record {
  path = codes "/mcp";
  is_post = true;
  authorization = bearer ++ codes shown;
  body = some (record { id = codes "1"; rpc_method = codes name; params = codes "nope" });
}

serve_http-Accepted_example :
    (is_served (serve_http world (pos 0) (server (some oauth)) 50 (request "abc" "ping")).1 ≡ true)
    ↔ ((codes "/mcp" ≡ codes "/mcp")
        × (true ≡ true)
        × Accepted (server (some oauth)) 50 (bearer ++ codes "abc"))
serve_http-Accepted_example =
    serve_http-Accepted world (pos 0) (server (some oauth)) 50 (request "abc" "ping")

-- The issued token serves until it expires.
token_serves :
    map
      (λ now.
        is_served (serve_http world (pos 0) (server (some oauth)) now (request "abc" "ping")).1)
      (100 ∷ 101 ∷ [])
    ≡ true ∷ false ∷ []
unfolding serve_http check_auth validate_token same strip_prefix Dict.get Dict.put Dict.empty
    Dict.remove
token_serves = refl

revoked_is_refused_example :
    is_served
      (serve_http world
        (pos 0)
        (server (some (handle_revoke oauth (revocation_of (codes "abc"))).0))
        50
        (request "abc" "ping")).1
    ≡ false
revoked_is_refused_example =
    revoked_is_refused world (pos 0)
      (server (some (handle_revoke oauth (revocation_of (codes "abc"))).0)) oauth 50 (codes "abc")
      (request "abc" "ping") refl (ground arith) refl

dispatch-Answers_example : Answers (codes "1") (
    dispatch world
      (pos 0)
      (record { id = codes "1"; rpc_method = codes "tools/call"; params = codes "nope" }))
dispatch-Answers_example =
    dispatch-Answers world (pos 0)
      (record { id = codes "1"; rpc_method = codes "tools/call"; params = codes "nope" })

unknown_method :
    (serve_http world (pos 0) (server none) 0 (request "fixed" "nothing")).1
    ≡ rpc (error_response (codes "1") err_method_not_found (codes "method not found: nothing") none)
unfolding serve_http check_auth dispatch same strip_prefix
unknown_method = refl

abbrev two_teams : TeamsArgs
two_teams = record { team_ids = codes "t-1" ∷ codes "t-2" ∷ []; window_days = pos 0 }

narrative-lasting_example :
    narrative fmt (codes "team") (codes "t-1") (pos 30) (
      metrics_of fmt
        (pos 0)
        (codes "team")
        (codes "t-1")
        (pos 30)
        (lasting none (some (pos 60)) window))
    ≡ narrative fmt
        (codes "team")
        (codes "t-1")
        (pos 30)
        (metrics_of fmt (pos 0) (codes "team") (codes "t-1") (pos 30) window)
narrative-lasting_example =
    narrative-lasting fmt (pos 0) (codes "team") (codes "t-1") (pos 30) window none (some (pos 60))
