-- ===== src/Collector/Jira/Fallback.antt =====
-- The MCP source: what it returns when the service works, when it fails, and when it shakes hands.
use mathlib.Core.List.{append-nil, append_assoc}
use dora_metrics_app.Base.{
  ℕ, zero, suc, ◌+◌, ◌≡◌, refl, sym, ap, inl, inr, Bool, true, false, ◌||◌, Option, none, some,
  List, [], ◌∷◌, ◌++◌, arith, if◌then◌else◌, length, take, Option-cases, length-append,
}
use dora_metrics_app.Base.Int.{ℤ, pos, negsuc, ltb_ℤ}
use dora_metrics_app.Base.Text.{Text}
use dora_metrics_app.Collector.Jira.{
  Issue, RawIssue, McpError, Result, ok, err, mcp_failed, decode_issue,
}
use dora_metrics_app.Collector.Jira.Pages.{first}
use dora_metrics_app.Collector.Jira.Mcp.{
  McpResult, got, fails, search_tool, Codec, McpService, AtlassianClient, next, initialize_client,
  call_tool, Source, McpSource, use_fallback, take_decoded, limit_arg, to_issues,
  issues_or_fallback, search_tools, after_handshake, mcp_search_issues,
}

module _ (parse : Text → Text → Option ℤ) where
  abbrev cons_some : Option Issue → List Issue → List Issue
  cons_some none xs = xs
  cons_some (some i) xs = i ∷ xs

  -- The issues that decode.
  abbrev pub decodable : List RawIssue → List Issue
  decodable [] = []
  decodable (r ∷ rs) = cons_some (decode_issue parse r) (decodable rs)

  take_decoded-unlimited :
      (limit : ℤ) (out : List Issue) (rs : List RawIssue)
      → ltb_ℤ (pos 0) limit ≡ false
      → take_decoded parse limit out rs ≡ out ++ decodable rs
  unfolding take_decoded
  take_decoded-unlimited limit out [] h = sym (append-nil out)
  take_decoded-unlimited limit out (r ∷ rs) h = elim (Option-cases (decode_issue parse r)) [
    | inl e ↦ ground (arith, e, take_decoded-unlimited limit out rs)
    | inr (i, e) ↦ ground (
      arith,
      e,
      take_decoded-unlimited limit (out ++ i ∷ []) rs,
      append_assoc out (i ∷ []) (decodable rs),
    )
  ]

  take_decoded-limited :
      (n r : ℕ) (out : List Issue) (rs : List RawIssue)
      → length out + suc r ≡ suc n
      → take_decoded parse (pos (suc n)) out rs ≡ out ++ take (suc r) (decodable rs)
  unfolding take_decoded
  take_decoded-limited n r out [] h = sym (append-nil out)
  take_decoded-limited n zero out (x ∷ rs) h = elim (Option-cases (decode_issue parse x)) [
    | inl e ↦ ground (arith, e, take_decoded-limited n zero out rs)
    | inr (i, e) ↦ ground (arith, e, length-append out (i ∷ []))
  ]
  take_decoded-limited n (suc r) out (x ∷ rs) h = elim (Option-cases (decode_issue parse x)) [
    | inl e ↦ ground (arith, e, take_decoded-limited n (suc r) out rs)
    | inr (i, e) ↦ ground (
      arith,
      e,
      take_decoded-limited n r (out ++ i ∷ []) rs,
      length-append out (i ∷ []),
      append_assoc out (i ∷ []) (take (suc r) (decodable rs)),
    )
  ]

  take_decoded-first :
      (limit : ℤ) (rs : List RawIssue) → take_decoded parse limit [] rs ≡ first limit (decodable rs)
  take_decoded-first (pos zero) rs = take_decoded-unlimited (pos 0) [] rs refl
  take_decoded-first (pos (suc n)) rs = take_decoded-limited n n [] rs (omega arith)
  take_decoded-first (negsuc n) rs = take_decoded-unlimited (negsuc n) [] rs (ground arith)

-- The client with which the tool is called, once the handshake is done.
abbrev ready : Bool → AtlassianClient → AtlassianClient
ready initialized c = if initialized then c else next c

-- The second result, unless the first is an error.
abbrev after_ok : McpResult Text → McpResult (List RawIssue) → McpResult (List RawIssue)
after_ok (fails e) r = fails e
after_ok (got v) r = r

module _ (codec : Codec) (mcp : McpService) where
  -- The handshake, where it is still to be made.
  abbrev pub handshake : Bool → AtlassianClient → McpResult Text
  handshake initialized c = if initialized then got [] else (initialize_client codec mcp c).1

  -- What the handshake and the tool give together: the issues of the answer, or the first error.
  abbrev pub tool_issues : Bool → AtlassianClient → Text → ℤ → McpResult (List RawIssue)
  tool_issues initialized c jql limit = after_ok (handshake initialized c) (
      to_issues codec
        (call_tool codec mcp (ready initialized c) (search_tool jql (limit_arg limit))).1)

abbrev pub is_got : McpResult Text → Bool
is_got (got v) = true
is_got (fails e) = false

-- The answer that a source owes.
abbrev pub owed :
    (Text → Text → Option ℤ)
    → Option Source
    → Text
    → ℤ
    → McpResult (List RawIssue)
    → Option (Result (List Issue))
owed parse fallback jql limit (got rs) = some (ok (first limit (decodable parse rs)))
owed parse none jql limit (fails e) = some (err (mcp_failed e))
owed parse (some source) jql limit (fails e) = source jql limit

use_fallback-owed :
    (parse : Text → Text → Option ℤ) (s : McpSource) (jql : Text) (limit : ℤ) (e : McpError)
    → use_fallback s jql limit e ≡ owed parse s.fallback jql limit (fails e)
use_fallback-owed parse s jql limit e = elim (Option-cases s.fallback) [
  | inl none_there ↦ rw none_there refl
  | inr (source, there) ↦ rw there refl
]

issues_or_fallback-owed :
    (parse : Text → Text → Option ℤ) (s : McpSource) (jql : Text) (limit : ℤ)
    (r : McpResult (List RawIssue))
    → issues_or_fallback parse s jql limit r ≡ owed parse s.fallback jql limit r
issues_or_fallback-owed parse s jql limit (got rs) =
    ap (λ is. some (ok is)) (take_decoded-first parse limit rs)
issues_or_fallback-owed parse s jql limit (fails e) = use_fallback-owed parse s jql limit e

module _ (parse : Text → Text → Option ℤ) (codec : Codec) (mcp : McpService) where
  -- What a search comes to when the tool is called with this client.
  tools_lem :
      (s : McpSource) (jql : Text) (limit : ℤ)
      → (search_tools parse codec mcp s jql limit).1
        ≡ owed parse s.fallback jql limit
            (to_issues codec (call_tool codec mcp s.client (search_tool jql (limit_arg limit))).1)
  unfolding search_tools
  tools_lem s jql limit =
      issues_or_fallback-owed parse s jql limit
        (to_issues codec (call_tool codec mcp s.client (search_tool jql (limit_arg limit))).1)

  -- A search after which the source, that was initialized or not, gave what it owes.
  abbrev pub Answers :
      Bool → McpSource → Text → ℤ → McpSource × Option (Result (List Issue)) → Type 0
  Answers initialized s jql limit (s', r) =
      (r ≡ owed parse s.fallback jql limit (tool_issues codec mcp initialized s.client jql limit))
      × (s'.initialized ≡ initialized || is_got (handshake codec mcp initialized s.client))
      × (s'.fallback ≡ s.fallback)

  handshake-Answers :
      (s : McpSource) (jql : Text) (limit : ℤ) (r : McpResult Text)
      → (initialize_client codec mcp s.client).1 ≡ r
      → s.initialized ≡ false
      → Answers false s jql limit (after_handshake parse codec mcp s jql limit (next s.client, r))
  unfolding search_tools
  handshake-Answers s jql limit (fails e) h f =
      rw h (use_fallback-owed parse s jql limit e, f, refl)
  handshake-Answers s jql limit (got v) h f =
      rw h
        (tools_lem (record s { client = next s.client; initialized = true }) jql limit, refl, refl)

-- A search returns the first issues of the answer that decode, up to the limit; where the handshake or
-- the call fails in any way it returns what the fallback gives for the same query and limit, and the
-- first error only if there is no fallback. The source counts as initialized from then on exactly if
-- it was, or if the handshake succeeded, and keeps its fallback.
pub mcp_search_issues-Answers :
    (parse : Text → Text → Option ℤ) (codec : Codec) (mcp : McpService) (s : McpSource) (jql : Text)
    (limit : ℤ)
    → Answers parse codec mcp s.initialized s jql limit
        (mcp_search_issues parse codec mcp s jql limit)
unfolding mcp_search_issues search_tools
mcp_search_issues-Answers parse codec mcp s jql limit = go s.initialized refl
  where
    go :
        (b : Bool)
        → s.initialized ≡ b
        → Answers parse codec mcp b s jql limit (
            if b
            then search_tools parse codec mcp s jql limit
            else after_handshake parse codec mcp s jql limit (initialize_client codec mcp s.client))
    go true h = (tools_lem parse codec mcp s jql limit, h, refl)
    go false h =
        handshake-Answers parse codec mcp s jql limit (initialize_client codec mcp s.client).1 refl
          h
