-- ===== src/Mcp/Server.antt =====
-- backend/internal/mcp/server/server.go: the MCP server, from the HTTP request to the JSON-RPC response.
-- A request carries what its body decodes to; `Codec` stands for `json.Unmarshal` of the parameters
-- and of the tools' arguments and for `json.Marshal`. Of the definitions of the tools the names and
-- the properties of the arguments are kept, not the descriptions.
pub mod Access
pub mod Answers
pub mod Uri
mod Tests
use dora_metrics_app.Base.{
  ℕ, String, Bool, true, false, not, ◌&&◌, ◌||◌, Option, none, some, List, [], ◌∷◌, ◌++◌,
  if◌then◌else◌, is_some,
}
use dora_metrics_app.Base.Int.{ℤ, pos, negsuc}
use dora_metrics_app.Base.Text.{Text, codes, same, strip_prefix}
use dora_metrics_app.Base.Dict
use dora_metrics_app.Base.Dict.{Dict}
use dora_metrics_app.Mcp.OAuth.{OAuthServer, validate_token}
use dora_metrics_app.Mcp.ResourceUri.{parse_dora_uri}
use dora_metrics_app.Mcp.Tools.{
  Dynamic, ToolError, Outcome, returned, raised, Db, Format, ScopeArgs, TeamsArgs, ToolOutput,
  fetch_metrics_by_id, tool_get_dora_metrics, tool_get_deployments, tool_compare_teams,
}
use dora_metrics_app.Mcp.Tools.Trend.{tool_explain_trend}

-- What decodes, or the text of the error.
pub data Decoded {ℓ} (A : Type ℓ) : Type ℓ where
  good : A → Decoded A
  bad : Text → Decoded A

pub record Codec (F : Type 0) : Type 0 where
  pub call_params : Text → Decoded (Text × Text)
  pub uri_param : Text → Decoded Text
  pub scope_args : Text → Option ScopeArgs
  pub teams_args : Text → Option TeamsArgs
  pub output : ToolOutput F → Decoded Text
  pub metrics : Dict (Dynamic F) → Text
  pub error_text : ToolError → Text

pub record Tool : Type 0 where
  pub name : Text
  pub required : List Text
  pub properties : List Text

abbrev pub tools : List Tool
tools =
    record {
      name = codes "getDoraMetrics";
      required = [];
      properties = codes "project_id" ∷ codes "team_id" ∷ codes "window_days" ∷ [];
    }
    ∷ record {
      name = codes "getDeployments";
      required = codes "project_id" ∷ [];
      properties = codes "project_id" ∷ codes "window_days" ∷ [];
    }
    ∷ record {
      name = codes "compareTeams";
      required = codes "team_ids" ∷ [];
      properties = codes "team_ids" ∷ codes "window_days" ∷ [];
    }
    ∷ record {
      name = codes "explainTrend";
      required = [];
      properties = codes "project_id" ∷ codes "team_id" ∷ codes "window_days" ∷ [];
    }
    ∷ []

pub record RpcRequest : Type 0 where
  pub id : Text
  pub rpc_method : Text
  pub params : Text

-- The results, by the method that gives them; a content is an error of the tool or its payload.
pub data RpcResult : Type 0 where
  initialized pong resources : RpcResult
  tool_list : List Tool → RpcResult
  content : Bool → Text → RpcResult
  contents : Text → Text → RpcResult

pub record RpcError : Type 0 where
  pub code : ℤ
  pub message : Text
  pub details : Option Text

pub record RpcResponse : Type 0 where
  pub jsonrpc : Text
  pub id : Text
  pub result : Option RpcResult
  pub error : Option RpcError

abbrev pub err_parse_error : ℤ
err_parse_error = negsuc 32_699

abbrev pub err_method_not_found : ℤ
err_method_not_found = negsuc 32_600

abbrev pub err_invalid_params : ℤ
err_invalid_params = negsuc 32_601

abbrev pub err_internal_error : ℤ
err_internal_error = negsuc 32_602

abbrev pub error_response : Text → ℤ → Text → Option Text → RpcResponse
error_response id code message details = record {
  jsonrpc = codes "2.0";
  id = id;
  result = none;
  error = some (record { code = code; message = message; details = details });
}

abbrev pub result_response : Text → RpcResult → RpcResponse
result_response id result = record {
  jsonrpc = codes "2.0";
  id = id;
  result = some result;
  error = none;
}

abbrev pub schema : Text
schema =
    codes
      "{\"thresholds\":{\"df\":{\"elite\":1.0,\"high\":0.143,\"medium\":0.033},\"lt_seconds\":{\"elite\":3600,\"high\":604800,\"medium\":2592000},\"cfr\":{\"elite\":0.05,\"high\":0.10,\"medium\":0.20},\"mttr_seconds\":{\"elite\":3600,\"high\":86400,\"medium\":604800}}}"

abbrev pub benchmarks : Text
benchmarks =
    codes
      "{\"source\":\"DORA Report 2024\",\"industryAverages\":{\"p50\":{\"deploymentFrequencyPerDay\":0.5,\"leadTimeForChangesSeconds\":259200,\"changeFailureRate\":0.12,\"mttrSeconds\":43200},\"p75\":{\"deploymentFrequencyPerDay\":2.5,\"leadTimeForChangesSeconds\":86400,\"changeFailureRate\":0.08,\"mttrSeconds\":14400},\"p90\":{\"deploymentFrequencyPerDay\":8.0,\"leadTimeForChangesSeconds\":14400,\"changeFailureRate\":0.04,\"mttrSeconds\":3600}}}"

-- What the handlers use of the rest of the program.
pub record World (F : Type 0) : Type 0 where
  pub db : Db F
  pub fmt : Format F
  pub parse_uuid : Text → Option Text
  pub codec : Codec F

module _ {F : Type 0} (world : World F) (now : ℤ) where
  abbrev pub ToolHandler : Type 0
  ToolHandler = Text → Outcome (ToolOutput F)

  unfoldable pub handlers : Dict ToolHandler
  unfolding tool_get_dora_metrics tool_get_deployments tool_compare_teams tool_explain_trend
  handlers =
      Dict.put
        (Dict.put
          (Dict.put
            (Dict.put Dict.empty (codes "getDoraMetrics") (λ raw.
              tool_get_dora_metrics world.db world.fmt now world.parse_uuid
                (world.codec.scope_args raw)))
            (codes "getDeployments")
            (λ raw. tool_get_deployments world.parse_uuid (world.codec.scope_args raw)))
          (codes "compareTeams")
          (λ raw.
            tool_compare_teams world.db world.fmt now world.parse_uuid
              (world.codec.teams_args raw)))
        (codes "explainTrend")
        (λ raw.
          tool_explain_trend world.fmt world.db now world.parse_uuid (world.codec.scope_args raw))

  abbrev pub of_payload : Text → Decoded Text → RpcResponse
  of_payload id (bad message) =
      error_response id err_internal_error (codes "marshal result") (some message)
  of_payload id (good payload) = result_response id (content false payload)

  abbrev pub of_outcome : Text → Outcome (ToolOutput F) → RpcResponse
  of_outcome id (raised e) = result_response id (content true (world.codec.error_text e))
  of_outcome id (returned out) = of_payload id (world.codec.output out)

  abbrev pub with_handler : Text → Text → Text → Option ToolHandler → RpcResponse
  with_handler id name arguments none =
      error_response id err_method_not_found (codes "unknown tool: " ++ name) none
  with_handler id name arguments (some h) = of_outcome id (h arguments)

  abbrev pub invalid_params : Text → Text → RpcResponse
  invalid_params id message =
      error_response id err_invalid_params (codes "invalid params") (some message)

  abbrev pub call_with : Text → Decoded (Text × Text) → RpcResponse
  call_with id (bad message) = invalid_params id message
  call_with id (good (name, arguments)) = with_handler id name arguments (Dict.get handlers name)

  unfoldable pub handle_tools_call : RpcRequest → RpcResponse
  handle_tools_call r = call_with r.id (world.codec.call_params r.params)

  abbrev pub of_metrics : Text → Text → Outcome (Dict (Dynamic F)) → RpcResponse
  of_metrics id uri (raised e) =
      error_response id err_internal_error (codes "fetch metrics") (some (world.codec.error_text e))
  of_metrics id uri (returned m) = result_response id (contents uri (world.codec.metrics m))

  abbrev pub of_uri : Text → Text → Option (Text × Text) → RpcResponse
  of_uri id uri none = error_response id err_invalid_params (codes "uri inválida: " ++ uri) none
  of_uri id uri (some (kind, scope)) =
      of_metrics id uri (fetch_metrics_by_id world.db world.fmt now kind scope (pos 30))

  abbrev pub read_with : Text → Decoded Text → RpcResponse
  read_with id (bad message) = invalid_params id message
  read_with id (good uri) =
      if same uri (codes "dora://schema")
      then result_response id (contents uri schema)
      else if same uri (codes "dora://benchmarks")
      then result_response id (contents uri benchmarks)
      else of_uri id uri (parse_dora_uri world.parse_uuid uri)

  unfoldable pub handle_resources_read : RpcRequest → RpcResponse
  handle_resources_read r = read_with r.id (world.codec.uri_param r.params)

  unfoldable pub dispatch : RpcRequest → RpcResponse
  dispatch r =
      if same r.rpc_method (codes "initialize")
      then result_response r.id initialized
      else if same r.rpc_method (codes "tools/list")
      then result_response r.id (tool_list tools)
      else if same r.rpc_method (codes "tools/call")
      then handle_tools_call r
      else if same r.rpc_method (codes "resources/list")
      then result_response r.id resources
      else if same r.rpc_method (codes "resources/read")
      then handle_resources_read r
      else if same r.rpc_method (codes "ping")
      then result_response r.id pong
      else error_response r.id err_method_not_found (codes "method not found: " ++ r.rpc_method)
          none

-- The state: the static token, and the authorization server where clients are configured.
pub record Server : Type 0 where
  pub token : Text
  pub oauth : Option OAuthServer

abbrev pub bearer : Text
bearer = codes "Bearer "

-- The second test of `checkAuth`, and the state that it leaves.
abbrev pub oauth_accepts : Server → ℕ → OAuthServer → Option Text → Server × Bool
oauth_accepts s now o none = (s, false)
oauth_accepts s now o (some token) =
    let (o', valid) = validate_token o now token in (record s { oauth = some o' }, is_some valid)

abbrev pub check_oauth : Server → ℕ → Text → Option OAuthServer → Server × Bool
check_oauth s now header none = (s, same s.token [])
check_oauth s now header (some o) = oauth_accepts s now o (strip_prefix bearer header)

abbrev pub is_static : Server → Text → Bool
is_static s header = not (same s.token []) && same header (bearer ++ s.token)

unfoldable pub check_auth : Server → ℕ → Text → Server × Bool
check_auth s now header = if is_static s header then (s, true) else check_oauth s now header s.oauth

-- A request of HTTP, with what its body decodes to.
pub record HttpRequest : Type 0 where
  pub path : Text
  pub is_post : Bool
  pub authorization : Text
  pub body : Option RpcRequest

-- `to_mux` is the answer of the routes of the authorization server; `bad_request` has status 400.
pub data HttpReply : Type 0 where
  healthy to_mux http_not_found method_not_allowed unauthorized : HttpReply
  bad_request rpc : RpcResponse → HttpReply

module _ {F : Type 0} (world : World F) (clock : ℤ) where
  abbrev pub of_body : Option RpcRequest → HttpReply
  of_body none = bad_request (error_response [] err_parse_error (codes "parse error") none)
  of_body (some r) = rpc (dispatch world clock r)

  abbrev pub after_auth : HttpRequest → Server × Bool → Server × HttpReply
  after_auth r (s, accepted) = (s, if accepted then of_body r.body else unauthorized)

  unfoldable pub serve_http : Server → ℕ → HttpRequest → Server × HttpReply
  serve_http s now r =
      if same r.path (codes "/healthz")
      then (s, healthy)
      else if is_some (strip_prefix (codes "/oauth/") r.path)
      then (s, to_mux)
      else if not (same r.path (codes "/mcp"))
      then (s, http_not_found)
      else if not r.is_post
      then (s, method_not_allowed)
      else after_auth r (check_auth s now r.authorization)
