-- ===== src/Mcp/OAuth/Safety.antt =====
-- Whatever requests the server gets, in any order: what codes and tokens can come to exist.
use mathlib.Core.Option.{some-injective}
use mathlib.Core.Path.{subst}
use dora_metrics_app.Base.{
  ℕ, ◌≡◌, refl, Option, none, some, List, [], ◌∷◌, arith, All, ltb, inl, inr, Bool-cases,
}
use dora_metrics_app.Base.Text.{Text, codes, same}
use dora_metrics_app.Base.Dict
use dora_metrics_app.Base.Dict.{Dict}
use dora_metrics_app.Mcp.OAuth.{
  OAuthServer, PendingCode, IssuedToken, AuthorizeRequest, AuthorizeReply, refusal, pending_of,
  authorize_checked, handle_authorize, TokenForm, TokenRequest, TokenReply, grant_refusal,
  grant_checked, exchange, handle_form, token_of, handle_token, validate_found, validate_token,
  RevokeRequest, revoke_form, handle_revoke,
}
use dora_metrics_app.Mcp.OAuth.Codes.{IsApproved, refusal-none}

-- A request, with the time and the random text that its handler draws.
pub data Event : Type 0 where
  authorize : ℕ → Text → AuthorizeRequest → Event
  token : ℕ → Text → TokenRequest → Event
  validate : ℕ → Text → Event
  revoke : RevokeRequest → Event

module _ (challenge_of : Text → Text) where
  abbrev pub step : OAuthServer → Event → OAuthServer
  step o (authorize now code q) = (handle_authorize o now code q).0
  step o (token now access r) = (handle_token challenge_of o now access r).0
  step o (validate now t) = (validate_token o now t).0
  step o (revoke r) = (handle_revoke o r).0

  abbrev pub serve : OAuthServer → List Event → OAuthServer
  serve o [] = o
  serve o (e ∷ es) = serve (step o e) es

-- What holds of a dictionary's entries still holds when one is removed, and when one is put that has
-- it.
module _ {V : Type 0} (P : V → Type 0) where
  abbrev pub Each : Dict V → Type 0
  Each d = (k : Text) (v : V) → Dict.get d k ≡ some v → P v

  Each-remove : (d : Dict V) (j : Text) → Each d → Each (Dict.remove d j)
  Each-remove d j h k v e = elim (Bool-cases (same j k)) [
    | inl s ↦ cc (Dict.get-remove d j k, s, e)
    | inr s ↦ h k v (cc (Dict.get-remove d j k, s, e))
  ]

  Each-put : (d : Dict V) (j : Text) (w : V) → P w → Each d → Each (Dict.put d j w)
  Each-put d j w pw h k v e = elim (Bool-cases (same j k)) [
    | inl s ↦ subst P (some-injective _ _ (cc (Dict.get-put d j k w, s, e))) pw
    | inr s ↦ h k v (cc (Dict.get-put d j k w, s, e))
  ]

-- The invariants of the server: the clients and the operator's token stay, each pending code has `P`,
-- and each active token has `Q`.
pub record Keeps (clients : Dict (List Text)) (operator : Text) (P : PendingCode → Type 0)
    (Q : IssuedToken → Type 0) (o : OAuthServer) : Type 0 where
  pub same_clients : o.clients ≡ clients
  pub same_operator : o.operator_token ≡ operator
  pub pending : Each P o.pending_codes
  pub active : Each Q o.active_tokens

module _ (challenge_of : Text → Text) (clients : Dict (List Text)) (operator : Text)
    (P : PendingCode → Type 0) (Q : IssuedToken → Type 0)
    (inherit : (now : ℕ) (p : PendingCode) → P p → Q (token_of now p)) where
  -- The code that an event may have issued has `P`.
  abbrev pub Admits : Event → Type 0
  Admits (authorize now code q) =
      (o : OAuthServer) (uris : List Text)
      → o.clients ≡ clients
      → o.operator_token ≡ operator
      → IsApproved o q uris
      → P (pending_of now q)
  Admits _ = Unit

  abbrev pub Inv : OAuthServer → Type 0
  Inv = Keeps clients operator P Q

  authorize-Inv :
      (o : OAuthServer) (now : ℕ) (code : Text) (q : AuthorizeRequest)
      → Admits (authorize now code q)
      → Inv o
      → Inv (handle_authorize o now code q).0
  unfolding handle_authorize
  authorize-Inv o now code q admits inv = go (Dict.get o.clients q.client_id) refl
    where
      checked :
          (client : Option (List Text)) (r : Option AuthorizeReply)
          → Dict.get o.clients q.client_id ≡ client
          → refusal o q client ≡ r
          → Inv (authorize_checked o now code q r).0
      checked client (some reply) e h = inv
      checked none none e h = absurd (ground arith)
      checked (some uris) none e h = record {
        same_clients = inv.same_clients;
        same_operator = inv.same_operator;
        pending =
            Each-put P o.pending_codes code (pending_of now q)
              (admits o uris inv.same_clients inv.same_operator (refusal-none o q uris e h))
              inv.pending;
        active = inv.active;
      }

      go :
          (client : Option (List Text))
          → Dict.get o.clients q.client_id ≡ client
          → Inv (authorize_checked o now code q (refusal o q client)).0
      go client e = checked client (refusal o q client) e refl

  token-Inv :
      (o : OAuthServer) (now : ℕ) (access : Text) (r : TokenRequest)
      → Inv o
      → Inv (handle_token challenge_of o now access r).0
  unfolding handle_token
  token-Inv o now access r inv = elim (Bool-cases r.is_post) [
    | inr e ↦ rw e inv
    | inl e ↦ rw e (form r.form)
  ]
    where
      checked :
          (f : TokenForm) (p : PendingCode) (r : Option TokenReply)
          → P p
          → Inv
              (grant_checked
                (record o { pending_codes = Dict.remove o.pending_codes f.code })
                now
                access
                p
                r).0
      checked f p (some reply) h = record {
        same_clients = inv.same_clients;
        same_operator = inv.same_operator;
        pending = Each-remove P o.pending_codes f.code inv.pending;
        active = inv.active;
      }
      checked f p none h = record {
        same_clients = inv.same_clients;
        same_operator = inv.same_operator;
        pending = Each-remove P o.pending_codes f.code inv.pending;
        active = Each-put Q o.active_tokens access (token_of now p) (inherit now p h) inv.active;
      }

      found :
          (f : TokenForm) (p : Option PendingCode)
          → Dict.get o.pending_codes f.code ≡ p
          → Inv (exchange challenge_of o now access f p).0
      found f none e = inv
      found f (some p) e = checked f p (grant_refusal challenge_of now f p) (inv.pending f.code p e)

      form : (f : Option TokenForm) → Inv (handle_form challenge_of o now access f).0
      form none = inv
      form (some f) = elim (Bool-cases (same f.grant_type (codes "authorization_code"))) [
        | inl e ↦ rw e (found f (Dict.get o.pending_codes f.code) refl)
        | inr e ↦ rw e inv
      ]

  drop-Inv :
      (o : OAuthServer) (t : Text)
      → Inv o
      → Inv (record o { active_tokens = Dict.remove o.active_tokens t })
  drop-Inv o t inv = record {
    same_clients = inv.same_clients;
    same_operator = inv.same_operator;
    pending = inv.pending;
    active = Each-remove Q o.active_tokens t inv.active;
  }

  validate-Inv : (o : OAuthServer) (now : ℕ) (t : Text) → Inv o → Inv (validate_token o now t).0
  unfolding validate_token
  validate-Inv o now t inv = go (Dict.get o.active_tokens t)
    where
      go : (found : Option IssuedToken) → Inv (validate_found o now t found).0
      go none = inv
      go (some x) = elim (Bool-cases (ltb x.expires_at now)) [
        | inl e ↦ rw e (drop-Inv o t inv)
        | inr e ↦ rw e inv
      ]

  revoke-Inv : (o : OAuthServer) (r : RevokeRequest) → Inv o → Inv (handle_revoke o r).0
  unfolding handle_revoke
  revoke-Inv o r inv = elim (Bool-cases r.is_post) [ inr e ↦ rw e inv | inl e ↦ rw e (go r.token) ]
    where
      go : (t : Option Text) → Inv (revoke_form o t).0
      go none = inv
      go (some t) = drop-Inv o t inv

  step-Inv : (o : OAuthServer) (e : Event) → Admits e → Inv o → Inv (step challenge_of o e)
  step-Inv o (authorize now code q) a inv = authorize-Inv o now code q a inv
  step-Inv o (token now access r) a inv = token-Inv o now access r inv
  step-Inv o (validate now t) a inv = validate-Inv o now t inv
  step-Inv o (revoke r) a inv = revoke-Inv o r inv

  pub serve-Inv :
      (o : OAuthServer) (es : List Event) → All Admits es → Inv o → Inv (serve challenge_of o es)
  serve-Inv o [] a inv = inv
  serve-Inv o (e ∷ es) a inv = serve-Inv (step challenge_of o e) es a.1 (step-Inv o e a.0 inv)
