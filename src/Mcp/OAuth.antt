-- ===== src/Mcp/OAuth.antt =====
-- backend/internal/mcp/server/oauth.go: the authorization server, with PKCE. Each handler is a function
-- of the state, the time in nanoseconds, and what `crypto/rand` gave; `challenge_of` stands for
-- SHA-256 and base64url.
pub mod Clients
pub mod Codes
pub mod Tokens
pub mod Safety
pub mod Provenance
mod Tests
use dora_metrics_app.Base.{
  ℕ, ◌+◌, Bool, true, false, not, ◌&&◌, ◌||◌, Option, none, some, List, [], ◌∷◌, ltb, if◌then◌else◌,
}
use dora_metrics_app.Base.Text.{Text, codes, same}
use dora_metrics_app.Base.Dict
use dora_metrics_app.Base.Dict.{Dict}

-- 60 seconds and one hour
abbrev pub code_ttl : ℕ
code_ttl = 60_000_000_000

abbrev pub token_ttl : ℕ
token_ttl = 3_600_000_000_000

pub record PendingCode : Type 0 where
  pub client_id : Text
  pub redirect_uri : Text
  pub code_challenge : Text
  pub code_challenge_method : Text
  pub scope : Text
  pub expires_at : ℕ

pub record IssuedToken : Type 0 where
  pub client_id : Text
  pub scope : Text
  pub expires_at : ℕ

-- A client is known by its redirect URIs.
pub record OAuthServer : Type 0 where
  pub clients : Dict (List Text)
  pub pending_codes : Dict PendingCode
  pub active_tokens : Dict IssuedToken
  pub operator_token : Text

unfoldable pub contains : List Text → Text → Bool
contains [] needle = false
contains (h ∷ haystack) needle = same h needle || contains haystack needle

-- What `ValidateToken` does with the entry of the map.
abbrev pub validate_found :
    OAuthServer → ℕ → Text → Option IssuedToken → OAuthServer × Option (Text × Text)
validate_found o now token none = (o, none)
validate_found o now token (some t) =
    if ltb t.expires_at now
    then (record o { active_tokens = Dict.remove o.active_tokens token }, none)
    else (o, some (t.client_id, t.scope))

unfoldable pub validate_token : OAuthServer → ℕ → Text → OAuthServer × Option (Text × Text)
validate_token o now token = validate_found o now token (Dict.get o.active_tokens token)

-- The query of `/oauth/authorize` and the header X-MCP-Operator-Token.
pub record AuthorizeRequest : Type 0 where
  pub response_type : Text
  pub client_id : Text
  pub redirect_uri : Text
  pub code_challenge : Text
  pub code_challenge_method : Text
  pub state : Text
  pub scope : Text
  pub operator_header : Text

-- `redirected` is the 302 to the client's URI with the code and the state in its query.
pub data AuthorizeReply : Type 0 where
  unsupported_response_type invalid_client invalid_redirect_uri pkce_required : AuthorizeReply
  operator_not_configured operator_approval_required : AuthorizeReply
  redirected : Text → Text → Text → AuthorizeReply

-- The checks of `handleAuthorize` up to the code, with the client's entry in the map.
abbrev pub refusal : OAuthServer → AuthorizeRequest → Option (List Text) → Option AuthorizeReply
refusal o q client =
    if not (same q.response_type (codes "code"))
    then some unsupported_response_type
    else elim client [
      | none ↦ some invalid_client
      | some uris ↦
          if not (contains uris q.redirect_uri)
          then some invalid_redirect_uri
          else if same q.code_challenge [] || not (same q.code_challenge_method (codes "S256"))
          then some pkce_required
          else if same o.operator_token []
          then some operator_not_configured
          else if not (same q.operator_header o.operator_token)
          then some operator_approval_required
          else none
    ]

abbrev pub pending_of : ℕ → AuthorizeRequest → PendingCode
pending_of now q = record {
  client_id = q.client_id;
  redirect_uri = q.redirect_uri;
  code_challenge = q.code_challenge;
  code_challenge_method = q.code_challenge_method;
  scope = q.scope;
  expires_at = now + code_ttl;
}

abbrev pub authorize_checked :
    OAuthServer → ℕ → Text → AuthorizeRequest → Option AuthorizeReply → OAuthServer × AuthorizeReply
authorize_checked o now code q (some reply) = (o, reply)
authorize_checked o now code q none = (
  record o { pending_codes = Dict.put o.pending_codes code (pending_of now q) },
  redirected q.redirect_uri code q.state,
)

unfoldable pub handle_authorize :
    OAuthServer → ℕ → Text → AuthorizeRequest → OAuthServer × AuthorizeReply
unfolding contains
handle_authorize o now code q =
    authorize_checked o now code q (refusal o q (Dict.get o.clients q.client_id))

-- A request of `/oauth/token`: `form` is none where `ParseForm` fails.
pub record TokenForm : Type 0 where
  pub grant_type : Text
  pub code : Text
  pub client_id : Text
  pub redirect_uri : Text
  pub code_verifier : Text

pub record TokenRequest : Type 0 where
  pub is_post : Bool
  pub form : Option TokenForm

pub data TokenReply : Type 0 where
  method_not_allowed invalid_request unsupported_grant_type : TokenReply
  code_not_found code_expired client_mismatch redirect_uri_mismatch verifier_mismatch : TokenReply
  granted : Text → Text → TokenReply

-- The checks on a code that was found.
abbrev pub grant_refusal : (Text → Text) → ℕ → TokenForm → PendingCode → Option TokenReply
grant_refusal challenge_of now f p =
    if ltb p.expires_at now
    then some code_expired
    else if not (same p.client_id f.client_id)
    then some client_mismatch
    else if not (same p.redirect_uri f.redirect_uri)
    then some redirect_uri_mismatch
    else if not (same (challenge_of f.code_verifier) p.code_challenge)
    then some verifier_mismatch
    else none

abbrev pub token_of : ℕ → PendingCode → IssuedToken
token_of now p = record { client_id = p.client_id; scope = p.scope; expires_at = now + token_ttl }

abbrev pub grant_checked :
    OAuthServer → ℕ → Text → PendingCode → Option TokenReply → OAuthServer × TokenReply
grant_checked o now access p (some reply) = (o, reply)
grant_checked o now access p none = (
  record o { active_tokens = Dict.put o.active_tokens access (token_of now p) },
  granted access p.scope,
)

-- The code is deleted before any check of it: `o` is the state after that.
abbrev pub exchange :
    (Text → Text)
    → OAuthServer
    → ℕ
    → Text
    → TokenForm
    → Option PendingCode
    → OAuthServer × TokenReply
exchange challenge_of o now access f none = (o, code_not_found)
exchange challenge_of o now access f (some p) =
    let o' = record o { pending_codes = Dict.remove o.pending_codes f.code } in
    grant_checked o' now access p (grant_refusal challenge_of now f p)

abbrev pub handle_form :
    (Text → Text) → OAuthServer → ℕ → Text → Option TokenForm → OAuthServer × TokenReply
handle_form challenge_of o now access none = (o, invalid_request)
handle_form challenge_of o now access (some f) =
    if not (same f.grant_type (codes "authorization_code"))
    then (o, unsupported_grant_type)
    else exchange challenge_of o now access f (Dict.get o.pending_codes f.code)

unfoldable pub handle_token :
    (Text → Text) → OAuthServer → ℕ → Text → TokenRequest → OAuthServer × TokenReply
handle_token challenge_of o now access r =
    if r.is_post then handle_form challenge_of o now access r.form else (o, method_not_allowed)

-- A request of `/oauth/revoke`: the token of the form, or none where `ParseForm` fails.
pub record RevokeRequest : Type 0 where
  pub is_post : Bool
  pub token : Option Text

abbrev pub revoke_form : OAuthServer → Option Text → OAuthServer × Bool
revoke_form o none = (o, false)
revoke_form o (some token) = (record o { active_tokens = Dict.remove o.active_tokens token }, true)

-- The result says whether the status is 200.
unfoldable pub handle_revoke : OAuthServer → RevokeRequest → OAuthServer × Bool
handle_revoke o r = if r.is_post then revoke_form o r.token else (o, false)
