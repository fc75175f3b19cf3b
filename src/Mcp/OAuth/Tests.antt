-- ===== src/Mcp/OAuth/Tests.antt =====
-- Runs of the server, and the theorems on it.
use dora_metrics_app.Base.{
  ◌≡◌, ◌↔◌, refl, true, none, some, List, [], ◌∷◌, arith, if◌then◌else◌, ltb, ◌+◌,
}
use dora_metrics_app.Base.Text.{Text, codes, same, split}
use dora_metrics_app.Base.Dict
use dora_metrics_app.Base.Dict.{Dict, dict_laws}
use dora_metrics_app.Mcp.OAuth.{
  OAuthServer, PendingCode, AuthorizeRequest, TokenForm, code_not_found, handle_authorize,
  handle_token, validate_token, pending_of, token_ttl,
}
use dora_metrics_app.Mcp.OAuth.Clients.{new_oauth_server, redirects, listed}
use dora_metrics_app.Mcp.OAuth.Codes.{
  is_redirect, exchange_of, code_single_use, Redeems, is_granted, exchange_granted_iff,
}
use dora_metrics_app.Mcp.OAuth.Tokens.{token_lifetime}
use dora_metrics_app.Mcp.OAuth.Safety.{Event, authorize, token, serve}
use dora_metrics_app.Mcp.OAuth.Provenance.{new_server, Asked, token_provenance}

abbrev env : Text
env = codes "cli:http://localhost/cb | web:https://w|bad|cli:http://other"

two_uris :
    listed (redirects (codes "cli") (split b'|' env))
    ≡ some (codes "http://localhost/cb" ∷ codes "http://other" ∷ [])
unfolding new_oauth_server
two_uris = refl

abbrev clients : Dict (List Text)
clients = Dict.put Dict.empty (codes "cli") (codes "http://cb" ∷ [])

abbrev server : OAuthServer
server = new_server clients (codes "op")

abbrev ask : AuthorizeRequest
ask = record {
  response_type = codes "code";
  client_id = codes "cli";
  redirect_uri = codes "http://cb";
  code_challenge = codes "v";
  code_challenge_method = codes "S256";
  state = codes "s";
  scope = codes "read";
  operator_header = codes "op";
}

-- In place of SHA-256 and base64url.
abbrev plain : Text → Text
plain verifier = verifier

abbrev form : TokenForm
form = record {
  grant_type = codes "authorization_code";
  code = codes "c1";
  client_id = codes "cli";
  redirect_uri = codes "http://cb";
  code_verifier = codes "v";
}

abbrev asked : OAuthServer
asked = (handle_authorize server 5 (codes "c1") ask).0

approves : is_redirect (handle_authorize server 5 (codes "c1") ask).1 ≡ true
unfolding handle_authorize Dict.get Dict.put Dict.empty same
approves = refl

code_single_use_example :
    let o' = (handle_token plain asked 7 (codes "t1") (exchange_of form)).0 in
    handle_token plain o' 8 (codes "t2") (exchange_of form) ≡ (o', code_not_found)
code_single_use_example =
    code_single_use plain asked 7 8 (codes "t1") (codes "t2") form form refl refl refl

exchange_granted_iff_example :
    (is_granted (handle_token plain asked 7 (codes "t1") (exchange_of form)).1 ≡ true) ↔ (
      (p : PendingCode) × (Dict.get asked.pending_codes (codes "c1") ≡ some p)
      × Redeems plain 7 form p)
exchange_granted_iff_example = exchange_granted_iff plain asked 7 (codes "t1") form refl

is_pending : Dict.get asked.pending_codes (codes "c1") ≡ some (pending_of 5 ask)
unfolding handle_authorize Dict.get Dict.put Dict.empty same
is_pending = refl

redeems : Redeems plain 7 form (pending_of 5 ask)
redeems = record { in_time = omega arith; same_client = refl; same_uri = refl; verified = refl }

token_lifetime_example :
    (validate_token (handle_token plain asked 7 (codes "t1") (exchange_of form)).0 9 (codes "t1")).1
    ≡ (if ltb (7 + token_ttl) 9 then none else some (codes "cli", codes "read"))
token_lifetime_example =
    token_lifetime plain asked 7 9 (codes "t1") form (pending_of 5 ask) refl is_pending redeems

abbrev events : List Event
events = authorize 5 (codes "c1") ask ∷ token 7 (codes "t1") (exchange_of form) ∷ []

validates :
    (validate_token (serve plain server events) 9 (codes "t1")).1 ≡ some (codes "cli", codes "read")
unfolding handle_authorize handle_token validate_token Dict.get Dict.put Dict.empty Dict.remove same
validates = refl

token_provenance_example : Asked clients (codes "op") (codes "cli") (codes "read") events
token_provenance_example =
    token_provenance plain clients (codes "op") events 9 (codes "t1") (codes "cli") (codes "read")
      validates
