-- ===== src/Mcp/Server/Answers.antt =====
-- The responses of the MCP server, and the tools that it lists.
use dora_metrics_app.Base.{
  String, ◌≡◌, refl, Bool, true, false, not, Option, none, some, map, arith, if◌then◌else◌, is_some,
}
use dora_metrics_app.Base.Int.{ℤ, pos}
use dora_metrics_app.Base.Text.{Text, codes, same}
use dora_metrics_app.Base.Dict
use dora_metrics_app.Base.Dict.{Dict, dict_laws}
use dora_metrics_app.Mcp.OAuth.{contains}
use dora_metrics_app.Mcp.ResourceUri.{parse_dora_uri}
use dora_metrics_app.Mcp.Tools.{Dynamic, Outcome, returned, raised, fetch_metrics_by_id, ToolOutput}
use dora_metrics_app.Mcp.Server.{
  Decoded, good, bad, tools, RpcRequest, RpcResponse, result_response, World, ToolHandler, handlers,
  of_payload, of_outcome, with_handler, call_with, read_with, handle_tools_call, of_metrics, of_uri,
  handle_resources_read, dispatch, schema, benchmarks, contents,
}

-- A response of the protocol to a request: it carries the request's id, and exactly one of a result
-- and an error.
abbrev pub Answers : Text → RpcResponse → Type 0
Answers id r = (r.jsonrpc ≡ codes "2.0") × (r.id ≡ id) × (is_some r.result ≡ not (is_some r.error))

either :
    (id : Text) (b : Bool) (x y : RpcResponse)
    → Answers id x
    → Answers id y
    → Answers id (if b then x else y)
either id true x y p q = p
either id false x y p q = q

module _ {F : Type 0} (world : World F) (now : ℤ) where
  outcome-Answers :
      (id : Text) (o : Outcome (ToolOutput F)) → Answers id (of_outcome world now id o)
  outcome-Answers id (raised e) = (refl, refl, refl)
  outcome-Answers id (returned out) = go (world.codec.output out)
    where
      go : (d : Decoded Text) → Answers id (of_payload world now id d)
      go (good payload) = (refl, refl, refl)
      go (bad message) = (refl, refl, refl)

  call_with-Answers :
      (id : Text) (d : Decoded (Text × Text)) → Answers id (call_with world now id d)
  call_with-Answers id (bad message) = (refl, refl, refl)
  call_with-Answers id (good (name, arguments)) = go (Dict.get (handlers world now) name)
    where
      go :
          (h : Option (ToolHandler world now))
          → Answers id (with_handler world now id name arguments h)
      go none = (refl, refl, refl)
      go (some h) = outcome-Answers id (h arguments)

  uri-Answers : (id uri : Text) (o : Option (Text × Text)) → Answers id (of_uri world now id uri o)
  uri-Answers id uri none = (refl, refl, refl)
  uri-Answers id uri (some (kind, scope)) =
      go (fetch_metrics_by_id world.db world.fmt now kind scope (pos 30))
    where
      go : (o : Outcome (Dict (Dynamic F))) → Answers id (of_metrics world now id uri o)
      go (raised e) = (refl, refl, refl)
      go (returned m) = (refl, refl, refl)

  read_with-Answers : (id : Text) (d : Decoded Text) → Answers id (read_with world now id d)
  read_with-Answers id (bad message) = (refl, refl, refl)
  read_with-Answers id (good uri) =
      either id (same uri (codes "dora://schema")) (result_response id (contents uri schema)) other
        (refl, refl, refl)
        (either id (same uri (codes "dora://benchmarks"))
          (result_response id (contents uri benchmarks)) (of_uri world now id uri parsed)
          (refl, refl, refl) (uri-Answers id uri parsed))
    where
      parsed : Option (Text × Text)
      parsed = parse_dora_uri world.parse_uuid uri

      other : RpcResponse
      other =
          if same uri (codes "dora://benchmarks")
          then result_response id (contents uri benchmarks)
          else of_uri world now id uri parsed

  -- A test of the method before a response.
  method :
      (r : RpcRequest) (name : String) (x y : RpcResponse)
      → Answers r.id x
      → Answers r.id y
      → Answers r.id (if same r.rpc_method (codes name) then x else y)
  method r name x y = either r.id (same r.rpc_method (codes name)) x y

-- Whatever the method and the parameters, the response carries the version of the protocol and the id
-- of the request, and either a result or an error, never both and never neither.
pub dispatch-Answers :
    {F : Type 0} (world : World F) (now : ℤ) (r : RpcRequest) → Answers r.id (dispatch world now r)
unfolding dispatch handle_tools_call handle_resources_read
dispatch-Answers world now r = ground (
  arith,
  call_with-Answers world now r.id (world.codec.call_params r.params),
  read_with-Answers world now r.id (world.codec.uri_param r.params),
)

-- The names under which tools are listed are those for which a tool is called.
pub tools-handlers :
    {F : Type 0} (world : World F) (now : ℤ) (name : Text)
    → contains (map (λ t. t.name) tools) name ≡ is_some (Dict.get (handlers world now) name)
unfolding contains handlers
tools-handlers world now name = simp dict_laws (ground arith)
