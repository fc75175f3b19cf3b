-- ===== src/Mcp/OAuth/Codes.antt =====
-- Authorization codes of the MCP server: who gets one, and what it buys.
use mathlib.Core.Option.{some-injective}
use mathlib.Core.Path.{subst}
use dora_metrics_app.Base.{
  sym, ℕ, ◌≤◌, ◌≡◌, ◌≢◌, ◌↔◌, refl, Bool, true, false, Option, none, some, List, [], arith, inl,
  inr, Option-cases,
}
use dora_metrics_app.Base.Text.{Text, codes, same_iff, same_refl}
use dora_metrics_app.Base.Dict
use dora_metrics_app.Base.Dict.{Dict}
use dora_metrics_app.Mcp.OAuth.{
  OAuthServer, PendingCode, AuthorizeRequest, AuthorizeReply, redirected, contains, refusal,
  pending_of, authorize_checked, handle_authorize, TokenForm, TokenRequest, TokenReply, granted,
  code_not_found, grant_refusal, grant_checked, exchange, handle_token,
}

-- The conditions of an authorization.
pub record IsApproved (o : OAuthServer) (q : AuthorizeRequest) (uris : List Text) : Type 0 where
  pub asks_code : q.response_type ≡ codes "code"
  pub registered : Dict.get o.clients q.client_id ≡ some uris
  pub own_uri : contains uris q.redirect_uri ≡ true
  pub has_challenge : q.code_challenge ≢ []
  pub is_s256 : q.code_challenge_method ≡ codes "S256"
  pub configured : o.operator_token ≢ []
  pub by_operator : q.operator_header ≡ o.operator_token

pub refusal-none :
    (o : OAuthServer) (q : AuthorizeRequest) (uris : List Text)
    → Dict.get o.clients q.client_id ≡ some uris
    → refusal o q (some uris) ≡ none
    → IsApproved o q uris
refusal-none o q uris e h = ground (
  arith,
  e,
  same_iff q.response_type (codes "code"),
  same_iff q.code_challenge [],
  same_iff q.code_challenge_method (codes "S256"),
  same_iff o.operator_token [],
  same_iff q.operator_header o.operator_token,
)

approved-refusal :
    (o : OAuthServer) (q : AuthorizeRequest) (uris : List Text)
    → IsApproved o q uris
    → refusal o q (some uris) ≡ none
approved-refusal o q uris h = ground (
  arith,
  same_iff q.response_type (codes "code"),
  same_iff q.code_challenge [],
  same_iff q.code_challenge_method (codes "S256"),
  same_iff o.operator_token [],
  same_iff q.operator_header o.operator_token,
)

abbrev pub is_redirect : AuthorizeReply → Bool
is_redirect (redirected _ _ _) = true
is_redirect _ = false

refusal-not_redirect :
    (o : OAuthServer) (q : AuthorizeRequest) (client : Option (List Text)) (reply : AuthorizeReply)
    → refusal o q client ≡ some reply
    → is_redirect reply ≡ false
refusal-not_redirect o q none reply h = ground arith
refusal-not_redirect o q (some uris) reply h = ground arith

refused :
    (o : OAuthServer) (now : ℕ) (code : Text) (q : AuthorizeRequest) (client : Option (List Text))
    → Dict.get o.clients q.client_id ≡ client
    → ((uris : List Text) → ¬ IsApproved o q uris)
    → ((authorize_checked o now code q (refusal o q client)).0 ≡ o)
      × (is_redirect (authorize_checked o now code q (refusal o q client)).1 ≡ false)
refused o now code q client e no_approval = elim (Option-cases (refusal o q client)) [
  | inl h ↦ absurd (never client e h)
  | inr (reply, h) ↦ rw h (refl, refusal-not_redirect o q client reply h)
]
  where
    never :
        (client : Option (List Text))
        → Dict.get o.clients q.client_id ≡ client
        → refusal o q client ≡ none
        → ⊥
    never none e h = ground arith
    never (some uris) e h = no_approval uris (refusal-none o q uris e h)

-- An authorization that meets every condition (response type, registered client, one of its URIs, a
-- PKCE challenge by S256, the operator's token) redirects with the new code, and records what the
-- code was issued for, to expire in 60 seconds. Any other is refused and changes nothing.
pub handle_authorize_lem :
    (o : OAuthServer) (now : ℕ) (code : Text) (q : AuthorizeRequest)
    → ((uris : List Text)
        → IsApproved o q uris
        → handle_authorize o now code q ≡ (
          record o { pending_codes = Dict.put o.pending_codes code (pending_of now q) },
          redirected q.redirect_uri code q.state,
        ))
      × (((uris : List Text) → ¬ IsApproved o q uris)
          → ((handle_authorize o now code q).0 ≡ o)
            × (is_redirect (handle_authorize o now code q).1 ≡ false))
unfolding handle_authorize
handle_authorize_lem o now code q = (
  λ uris h. rw (h.registered, approved-refusal o q uris h) refl,
  λ no_approval. refused o now code q (Dict.get o.clients q.client_id) refl no_approval,
)

-- A request that exchanges a code: a POST with a form of the right grant type.
abbrev pub exchange_of : TokenForm → TokenRequest
exchange_of f = record { is_post = true; form = some f }

pub exchange-eq :
    (challenge_of : Text → Text) (o : OAuthServer) (now : ℕ) (access : Text) (f : TokenForm)
    → f.grant_type ≡ codes "authorization_code"
    → handle_token challenge_of o now access (exchange_of f)
      ≡ exchange challenge_of o now access f (Dict.get o.pending_codes f.code)
unfolding handle_token
exchange-eq challenge_of o now access f e =
    ground (arith, same_iff f.grant_type (codes "authorization_code"))

grant_checked-pending :
    (o : OAuthServer) (now : ℕ) (access : Text) (p : PendingCode) (r : Option TokenReply)
    → (grant_checked o now access p r).0.pending_codes ≡ o.pending_codes
grant_checked-pending o now access p none = refl
grant_checked-pending o now access p (some r) = refl

exchange-removes :
    (challenge_of : Text → Text) (o : OAuthServer) (now : ℕ) (access : Text) (f : TokenForm)
    (found : Option PendingCode)
    → Dict.get o.pending_codes f.code ≡ found
    → Dict.get (exchange challenge_of o now access f found).0.pending_codes f.code ≡ none
exchange-removes challenge_of o now access f none e = e
exchange-removes challenge_of o now access f (some p) e =
    rw
      (
        grant_checked-pending _ now access p (grant_refusal challenge_of now f p),
        Dict.get-remove,
        same_refl,
      )
      refl

-- A code is good for one exchange, whether that succeeds or not: the next exchange of the same code,
-- by any client, does not find it and changes nothing.
pub code_single_use :
    (challenge_of : Text → Text) (o : OAuthServer) (now later : ℕ) (access other : Text)
    (f g : TokenForm)
    → f.grant_type ≡ codes "authorization_code"
    → g.grant_type ≡ codes "authorization_code"
    → g.code ≡ f.code
    → let o' = (handle_token challenge_of o now access (exchange_of f)).0 in
      handle_token challenge_of o' later other (exchange_of g) ≡ (o', code_not_found)
code_single_use challenge_of o now later access other f g ef eg same_code =
    let o' : OAuthServer = (handle_token challenge_of o now access (exchange_of f)).0 in
    let gone : Dict.get o'.pending_codes g.code ≡ none =
      rw (same_code, exchange-eq challenge_of o now access f ef)
        (exchange-removes challenge_of o now access f (Dict.get o.pending_codes f.code) refl) in
    rw (exchange-eq challenge_of o' later other g eg, gone) refl

-- What a form must show to get the token of a pending code.
pub record Redeems (challenge_of : Text → Text) (now : ℕ) (f : TokenForm) (p : PendingCode)
    : Type 0 where
  pub in_time : now ≤ p.expires_at
  pub same_client : p.client_id ≡ f.client_id
  pub same_uri : p.redirect_uri ≡ f.redirect_uri
  pub verified : challenge_of f.code_verifier ≡ p.code_challenge

pub Redeems-iff :
    (challenge_of : Text → Text) (now : ℕ) (f : TokenForm) (p : PendingCode)
    → (grant_refusal challenge_of now f p ≡ none) ↔ Redeems challenge_of now f p
Redeems-iff challenge_of now f p = (
  λ h. ground (
    arith,
    same_iff p.client_id f.client_id,
    same_iff p.redirect_uri f.redirect_uri,
    same_iff (challenge_of f.code_verifier) p.code_challenge,
  ),
  λ h. ground (
    arith,
    same_iff p.client_id f.client_id,
    same_iff p.redirect_uri f.redirect_uri,
    same_iff (challenge_of f.code_verifier) p.code_challenge,
  ),
)

abbrev pub is_granted : TokenReply → Bool
is_granted (granted _ _) = true
is_granted _ = false

refusal-not_granted :
    (challenge_of : Text → Text) (now : ℕ) (f : TokenForm) (p : PendingCode) (r : TokenReply)
    → grant_refusal challenge_of now f p ≡ some r
    → is_granted r ≡ false
refusal-not_granted challenge_of now f p r h = ground arith

-- An exchange grants a token exactly when its code is pending and the form redeems it: in time, by
-- the client and with the URI that the code was issued for, and with the verifier of its challenge.
pub exchange_granted_iff :
    (challenge_of : Text → Text) (o : OAuthServer) (now : ℕ) (access : Text) (f : TokenForm)
    → f.grant_type ≡ codes "authorization_code"
    → (is_granted (handle_token challenge_of o now access (exchange_of f)).1 ≡ true) ↔ (
        (p : PendingCode) × (Dict.get o.pending_codes f.code ≡ some p)
        × Redeems challenge_of now f p)
exchange_granted_iff challenge_of o now access f e =
    rw (exchange-eq challenge_of o now access f e) (go (Dict.get o.pending_codes f.code))
  where
    go :
        (found : Option PendingCode)
        → (is_granted (exchange challenge_of o now access f found).1 ≡ true)
          ↔ ((p : PendingCode) × (found ≡ some p) × Redeems challenge_of now f p)
    go none = (λ h. cc, λ h. cc (h.1))
    go (some p) = elim (Option-cases (grant_refusal challenge_of now f p)) [
      | inl h ↦ rw h (λ _. (p, refl, (Redeems-iff challenge_of now f p).0 h), λ _. refl)
      | inr (r, h) ↦ (
        λ yes_granted. cc (h, yes_granted, refusal-not_granted challenge_of now f p r h),
        λ k. cc (
          h,
          (Redeems-iff challenge_of now f p).1
              (subst (Redeems challenge_of now f) (sym (some-injective _ _ k.1)) k.2),
        ),
      )
    ]
