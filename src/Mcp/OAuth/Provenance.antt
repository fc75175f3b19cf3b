-- ===== src/Mcp/OAuth/Provenance.antt =====
-- Where a token that validates comes from, over all the requests that the server has had.
use mathlib.Core.Path.{subst₂}
use dora_metrics_app.Base.{
  ℕ, ◌≡◌, ◌⊎◌, refl, true, Option, none, some, List, [], ◌∷◌, arith, All, inl, inr, sym, ap, ◌∙◌,
}
use dora_metrics_app.Base.Text.{Text}
use dora_metrics_app.Base.Dict
use dora_metrics_app.Base.Dict.{Dict}
use dora_metrics_app.Mcp.OAuth.{OAuthServer, PendingCode, IssuedToken, contains, validate_token}
use dora_metrics_app.Mcp.OAuth.Tokens.{holds, validate_token-eq}
use dora_metrics_app.Mcp.OAuth.Safety.{
  Event, authorize, token, validate, revoke, serve, Keeps, Admits, serve-Inv,
}

-- A new server: the clients and the operator's token of the environment, and nothing issued.
abbrev pub new_server : Dict (List Text) → Text → OAuthServer
new_server clients operator = record {
  clients = clients;
  pending_codes = Dict.empty;
  active_tokens = Dict.empty;
  operator_token = operator;
}

-- Among the events there is an authorization with the operator's token, for this client and scope,
-- and with a redirect URI that the client has registered.
abbrev pub Asked : Dict (List Text) → Text → Text → Text → List Event → Type 0
Asked clients operator client scope [] = ⊥
Asked clients operator client scope (authorize now code q ∷ es) =
    ((uris : List Text) × (q.operator_header ≡ operator)
      × (q.client_id ≡ client)
      × (q.scope ≡ scope)
      × (Dict.get clients client ≡ some uris)
      × (contains uris q.redirect_uri ≡ true))
    ⊎ Asked clients operator client scope es
Asked clients operator client scope (e ∷ es) = Asked clients operator client scope es

module _ (challenge_of : Text → Text) (clients : Dict (List Text)) (operator : Text)
    (all : List Event) where
  abbrev AskedCode : PendingCode → Type 0
  AskedCode p = Asked clients operator p.client_id p.scope all

  abbrev AskedToken : IssuedToken → Type 0
  AskedToken t = Asked clients operator t.client_id t.scope all

  All-Admits :
      (es : List Event)
      → ((client scope : Text)
          → Asked clients operator client scope es
          → Asked clients operator client scope all)
      → All (Admits challenge_of clients operator AskedCode AskedToken (λ now p h. h)) es
  All-Admits [] within = tt
  All-Admits (authorize now code q ∷ es) within = (
    λ o uris ec eo a. within q.client_id q.scope (
        inl (
          uris,
          a.by_operator ∙ eo,
          refl,
          refl,
          ap (λ c. Dict.get c q.client_id) (sym ec) ∙ a.registered,
          a.own_uri,
        )),
    All-Admits es (λ c s h. within c s (inr h)),
  )
  All-Admits (token now access r ∷ es) within = (tt, All-Admits es within)
  All-Admits (validate now t ∷ es) within = (tt, All-Admits es within)
  All-Admits (revoke r ∷ es) within = (tt, All-Admits es within)

  served :
      Keeps clients operator AskedCode AskedToken
        (serve challenge_of (new_server clients operator) all)
  served =
      serve-Inv challenge_of clients operator AskedCode AskedToken (λ now p h. h)
        (new_server clients operator) all (All-Admits all (λ c s h. h))
        (record {
          same_clients = refl;
          same_operator = refl;
          pending = λ k p e. cc (Dict.get-empty {V = PendingCode} k);
          active = λ k t e. cc (Dict.get-empty {V = IssuedToken} k);
        })

holds-some :
    (now : ℕ) (found : Option IssuedToken) (client scope : Text)
    → holds now found ≡ some (client, scope)
    → (t : IssuedToken) × (found ≡ some t) × (t.client_id ≡ client) × (t.scope ≡ scope)
holds-some now none client scope h = cc
holds-some now (some t) client scope h = (t, refl, ground arith, ground arith)

-- After any requests to a new server, in any order, a token that validates to a client and a scope
-- goes back to an authorization among those requests that carried the operator's token, named this
-- client and this scope, and a redirect URI that the client has registered.
pub token_provenance :
    (challenge_of : Text → Text) (clients : Dict (List Text)) (operator : Text)
    (events : List Event) (now : ℕ) (access client scope : Text)
    → (validate_token (serve challenge_of (new_server clients operator) events) now access).1
      ≡ some (client, scope)
    → Asked clients operator client scope events
token_provenance challenge_of clients operator events now access client scope h =
    let o = serve challenge_of (new_server clients operator) events in
    let (t, e, ec, es) =
      holds-some now (Dict.get o.active_tokens access) client scope
        (sym (validate_token-eq o now access) ∙ h) in
    subst₂ (λ c s. Asked clients operator c s events) ec es
      ((served challenge_of clients operator events).active access t e)
