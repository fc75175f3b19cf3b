-- ===== src/Mcp/OAuth/Tokens.antt =====
-- Access tokens: what they validate to, for how long, and revocation.
use mathlib.Core.Path.{subst}
use dora_metrics_app.Base.{
  ℕ, ◌+◌, ◌≤◌, ◌≡◌, refl, true, Option, none, some, arith, ltb, if◌then◌else◌, inl, inr, Bool-cases,
}
use dora_metrics_app.Base.Text.{Text, codes, same, same_iff, same_refl}
use dora_metrics_app.Base.Dict
use dora_metrics_app.Mcp.OAuth.{
  OAuthServer, PendingCode, IssuedToken, TokenForm, grant_refusal, token_of, token_ttl,
  handle_token, validate_found, validate_token, RevokeRequest, handle_revoke,
}
use dora_metrics_app.Mcp.OAuth.Codes.{exchange_of, exchange-eq, Redeems, Redeems-iff}

-- What a token of the map stands for at a time.
abbrev pub holds : ℕ → Option IssuedToken → Option (Text × Text)
holds now none = none
holds now (some t) = if ltb t.expires_at now then none else some (t.client_id, t.scope)

pub validate_token-eq :
    (o : OAuthServer) (now : ℕ) (token : Text)
    → (validate_token o now token).1 ≡ holds now (Dict.get o.active_tokens token)
unfolding validate_token
validate_token-eq o now token = go (Dict.get o.active_tokens token)
  where
    go : (found : Option IssuedToken) → (validate_found o now token found).1 ≡ holds now found
    go none = refl
    go (some t) = ground arith

-- Showing a token, which drops it if it has expired, changes what no token validates to, then
-- or later.
pub validate_token-keeps :
    (o : OAuthServer) (now later : ℕ) (token other : Text)
    → now ≤ later
    → (validate_token (validate_token o now token).0 later other).1
      ≡ (validate_token o later other).1
validate_token-keeps o now later token other h =
    rw
      (
        validate_token-eq (validate_token o now token).0 later other,
        validate_token-eq o later other,
      )
      (unfold validate_token in go (Dict.get o.active_tokens token) refl)
  where
    go :
        (found : Option IssuedToken)
        → Dict.get o.active_tokens token ≡ found
        → holds later (Dict.get (validate_found o now token found).0.active_tokens other)
          ≡ holds later (Dict.get o.active_tokens other)
    go none e = refl
    go (some t) e = elim (Bool-cases (same token other)) [
      | inl s ↦
          let here : Dict.get o.active_tokens other ≡ some t =
            subst (λ k. Dict.get o.active_tokens k ≡ some t) ((same_iff token other).0 s) e in
          ground (arith, here, s, Dict.get-remove o.active_tokens token other)
      | inr s ↦ ground (arith, s, Dict.get-remove o.active_tokens token other)
    ]

granted_token :
    (challenge_of : Text → Text) (o : OAuthServer) (now : ℕ) (access : Text) (f : TokenForm)
    (p : PendingCode)
    → f.grant_type ≡ codes "authorization_code"
    → Dict.get o.pending_codes f.code ≡ some p
    → grant_refusal challenge_of now f p ≡ none
    → Dict.get (handle_token challenge_of o now access (exchange_of f)).0.active_tokens access
      ≡ some (token_of now p)
granted_token challenge_of o now access f p g e h =
    rw (exchange-eq challenge_of o now access f g, e, h, Dict.get-put, same_refl) refl

-- A token that is granted validates to its client and scope for an hour, the last nanosecond
-- included, and to nothing after that.
pub token_lifetime :
    (challenge_of : Text → Text) (o : OAuthServer) (now later : ℕ) (access : Text) (f : TokenForm)
    (p : PendingCode)
    → f.grant_type ≡ codes "authorization_code"
    → Dict.get o.pending_codes f.code ≡ some p
    → Redeems challenge_of now f p
    → (validate_token (handle_token challenge_of o now access (exchange_of f)).0 later access).1
      ≡ (if ltb (now + token_ttl) later then none else some (p.client_id, p.scope))
token_lifetime challenge_of o now later access f p g e h =
    rw
      (
        validate_token-eq (handle_token challenge_of o now access (exchange_of f)).0 later access,
        granted_token challenge_of o now access f p g e ((Redeems-iff challenge_of now f p).1 h),
      )
      refl

-- The revocation of a token, by a POST with a form.
abbrev pub revocation_of : Text → RevokeRequest
revocation_of token = record { is_post = true; token = some token }

-- A revoked token never validates, at any time, and the other tokens are as before.
pub handle_revoke_lem :
    (o : OAuthServer) (now : ℕ) (token other : Text)
    → (validate_token (handle_revoke o (revocation_of token)).0 now other).1
      ≡ (if same token other then none else (validate_token o now other).1)
handle_revoke_lem o now token other =
    rw
      (
        validate_token-eq (handle_revoke o (revocation_of token)).0 now other,
        validate_token-eq o now other,
      )
      (unfold handle_revoke in ground (arith, Dict.get-remove o.active_tokens token other))
