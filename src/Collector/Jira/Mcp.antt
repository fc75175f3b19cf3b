-- ===== src/Collector/Jira/Mcp.antt =====
-- backend/internal/mcp/client/atlassian.go: the MCP client of Atlassian, and `MCPSource` of
-- backend/internal/collector/jira/source.go, which falls back to another source. The service is a
-- function of the request, whose id counts the calls; `codec` stands for `json.Unmarshal` at the
-- three shapes that are read.
use mathlib.Core.List.{reverse}
use dora_metrics_app.Base.{
  Bool, true, not, Option, none, some, List, [], ◌∷◌, ◌++◌, ◌==◌, if◌then◌else◌, take,
}
use dora_metrics_app.Base.Int.{ℤ, pos, ◌+ℤ◌, wrap64, ltb_ℤ}
use dora_metrics_app.Base.Text.{Text, codes, same}
use dora_metrics_app.Collector.Jira.{
  Issue, RawIssue, McpError, not_built, not_sent, bad_envelope, bad_result, empty_content,
  http_error, rpc_error, tool_error, mcp_failed, Result, ok, err, Reply, unbuilt, unsent, answered,
  is_success, message_limit, decode_issue, is_full,
}

pub data McpResult {ℓ} (A : Type ℓ) : Type ℓ where
  got : A → McpResult A
  fails : McpError → McpResult A

-- What is called: the handshake, or the tool that searches, with a limit if it is positive.
pub data McpCall : Type 0 where
  initialize : McpCall
  search_tool : Text → Option ℤ → McpCall

pub record McpRequest : Type 0 where
  pub endpoint : Text
  pub authorization : Option Text
  pub id : ℤ
  pub call : McpCall

pub record Envelope : Type 0 where
  pub result : Text
  pub error : Option (ℤ × Text)

pub record ToolResult : Type 0 where
  pub is_error : Bool
  pub content : List Text

pub record Codec : Type 0 where
  pub version : Text → Option Text
  pub tool_result : Text → Option ToolResult
  pub issues : Text → Option (List RawIssue)

abbrev pub McpService : Type 0
McpService = McpRequest → Reply Envelope

pub record AtlassianClient : Type 0 where
  pub endpoint : Text
  pub token : Text
  pub next_id : ℤ

abbrev default_endpoint : Text
default_endpoint = codes "https://mcp.atlassian.com/v1/mcp"

drop_slashes : Text → Text
drop_slashes [] = []
drop_slashes (c ∷ s) = if c == b'/' then drop_slashes s else c ∷ s

-- strings.TrimRight(s, "/")
trim_slashes : Text → Text
trim_slashes s = reverse (drop_slashes (reverse s))

unfoldable pub new_atlassian_client : Text → Text → AtlassianClient
unfolding trim_slashes drop_slashes
new_atlassian_client endpoint token = record {
  endpoint = trim_slashes (if same endpoint [] then default_endpoint else endpoint);
  token = token;
  next_id = pos 0;
}

abbrev of_envelope : Envelope → McpResult Text
of_envelope e = elim e.error [
  | some (code, message) ↦ fails (rpc_error code message)
  | none ↦ got e.result
]

unfoldable pub envelope_result : Reply Envelope → McpResult Text
envelope_result unbuilt = fails not_built
envelope_result unsent = fails not_sent
envelope_result (answered status body decoded) =
    if not (is_success status)
    then fails (http_error status (take message_limit body))
    else elim decoded [ none ↦ fails bad_envelope | some e ↦ of_envelope e ]

-- The id of the next call: an atomic counter of 64 bits.
abbrev pub next : AtlassianClient → AtlassianClient
next c = record c { next_id = wrap64 (c.next_id +ℤ pos 1) }

abbrev pub mcp_request : AtlassianClient → McpCall → McpRequest
mcp_request c what = record {
  endpoint = c.endpoint;
  authorization = if same c.token [] then none else some (codes "Bearer " ++ c.token);
  id = c.next_id;
  call = what;
}

-- The client after a call, with the result.
unfoldable pub call : McpService → AtlassianClient → McpCall → AtlassianClient × McpResult Text
unfolding envelope_result
call mcp c what = (next c, envelope_result (mcp (mcp_request (next c) what)))

abbrev pub to_version : Codec → McpResult Text → McpResult Text
to_version codec (fails e) = fails e
to_version codec (got bytes) = elim (codec.version bytes) [
  | none ↦ fails bad_result
  | some v ↦ got v
]

unfoldable pub initialize_client :
    Codec → McpService → AtlassianClient → AtlassianClient × McpResult Text
unfolding call
initialize_client codec mcp c = let (c', r) = call mcp c initialize in (c', to_version codec r)

abbrev pub first_content : Bool → List Text → McpResult Text
first_content is_error [] = fails empty_content
first_content is_error (text ∷ texts) = if is_error then fails (tool_error text) else got text

abbrev pub to_content : Codec → McpResult Text → McpResult Text
to_content codec (fails e) = fails e
to_content codec (got bytes) = elim (codec.tool_result bytes) [
  | none ↦ fails bad_result
  | some r ↦ first_content r.is_error r.content
]

unfoldable pub call_tool :
    Codec → McpService → AtlassianClient → McpCall → AtlassianClient × McpResult Text
unfolding call
call_tool codec mcp c what = let (c', r) = call mcp c what in (c', to_content codec r)

-- A source gives issues for a query and a limit; `none` means that the fuel of a search ran out.
abbrev pub Source : Type 0
Source = Text → ℤ → Option (Result (List Issue))

pub record McpSource : Type 0 where
  pub client : AtlassianClient
  pub fallback : Option Source
  pub initialized : Bool

abbrev pub use_fallback : McpSource → Text → ℤ → McpError → Option (Result (List Issue))
use_fallback s jql limit e = elim s.fallback [
  | none ↦ some (err (mcp_failed e))
  | some fallback ↦ fallback jql limit
]

-- The loop over the issues of the answer, which skips those that do not decode.
unfoldable pub take_decoded : (Text → Text → Option ℤ) → ℤ → List Issue → List RawIssue → List Issue
take_decoded parse limit out [] = out
take_decoded parse limit out (r ∷ rs) = elim (decode_issue parse r) [
  | none ↦ take_decoded parse limit out rs
  | some i ↦
      let rest = take_decoded parse limit (out ++ i ∷ []) rs in
      if is_full limit (out ++ i ∷ []) then out ++ i ∷ [] else rest
]

abbrev pub limit_arg : ℤ → Option ℤ
limit_arg limit = if ltb_ℤ (pos 0) limit then some limit else none

abbrev pub to_issues : Codec → McpResult Text → McpResult (List RawIssue)
to_issues codec (fails e) = fails e
to_issues codec (got text) = elim (codec.issues text) [ none ↦ fails bad_result | some rs ↦ got rs ]

abbrev pub issues_or_fallback :
    (Text → Text → Option ℤ)
    → McpSource
    → Text
    → ℤ
    → McpResult (List RawIssue)
    → Option (Result (List Issue))
issues_or_fallback parse s jql limit (fails e) = use_fallback s jql limit e
issues_or_fallback parse s jql limit (got rs) = some (ok (take_decoded parse limit [] rs))

module _ (parse : Text → Text → Option ℤ) (codec : Codec) (mcp : McpService) where
  -- The part of `SearchIssues` after the handshake.
  unfoldable pub search_tools : McpSource → Text → ℤ → McpSource × Option (Result (List Issue))
  unfolding call_tool take_decoded
  search_tools s jql limit =
      let (c, r) = call_tool codec mcp s.client (search_tool jql (limit_arg limit)) in
      (record s { client = c }, issues_or_fallback parse s jql limit (to_issues codec r))

  abbrev pub after_handshake :
      McpSource
      → Text
      → ℤ
      → AtlassianClient × McpResult Text
      → McpSource × Option (Result (List Issue))
  after_handshake s jql limit (c, fails e) = (record s { client = c }, use_fallback s jql limit e)
  after_handshake s jql limit (c, got v) =
      search_tools (record s { client = c; initialized = true }) jql limit

  -- `MCPSource.SearchIssues`
  unfoldable pub mcp_search_issues : McpSource → Text → ℤ → McpSource × Option (Result (List Issue))
  unfolding initialize_client search_tools
  mcp_search_issues s jql limit =
      if s.initialized
      then search_tools s jql limit
      else after_handshake s jql limit (initialize_client codec mcp s.client)
