-- ===== src/Integrations/Atlassian/Token.antt =====
-- The token of a tenant that has connected.
use mathlib.Core.Option.{some-injective}
use dora_metrics_app.Base.{
  ℕ, ◌≡◌, ◌≤◌, ◌+◌, refl, sym, ◌∙◌, false, Option, some, List, [], arith, ltb, Bool-cases, inl, inr,
}
use dora_metrics_app.Base.Text.{Text, same, same_iff, same_refl}
use dora_metrics_app.Base.Dict
use dora_metrics_app.Integrations.Atlassian.{
  Service, OauthState, Connection, TokenSet, connected, access, complete_connect, connection_of,
  encrypt, decrypt, access_token, refresh_safety_margin, first_site,
}

-- What is relied on of the cipher: a sealed text is not empty, and opens to the text.
pub record OpensSealed (seal : Text → Option Text) (open_sealed : Text → Option Text) : Type 0 where
  pub opens : (t c : Text) → seal t ≡ some c → open_sealed c ≡ some t
  pub not_empty : (t c : Text) → seal t ≡ some c → same c [] ≡ false

module _ (seal : Text → Option Text) (open_sealed : Text → Option Text)
    (cipher : OpensSealed seal open_sealed) where
  empty_round : (t c : Text) → t ≡ [] → c ≡ [] → decrypt seal open_sealed c ≡ some t
  empty_round t c et ec = rw (ec, et, same_refl []) refl

  sealed_round : (t c : Text) → seal t ≡ some c → decrypt seal open_sealed c ≡ some t
  sealed_round t c h = rw (cipher.not_empty t c h) (cipher.opens t c h)

  decrypt-encrypt :
      (t c : Text) → encrypt seal open_sealed t ≡ some c → decrypt seal open_sealed c ≡ some t
  decrypt-encrypt t c h = elim (Bool-cases (same t [])) [
    | inl e ↦ empty_round t c ((same_iff t []).0 e) (sym (some-injective _ _ (rw e at h)))
    | inr e ↦ sealed_round t c (rw e at h)
  ]

  module _ (exchange : Text → Option TokenSet) (resources : Text → List (Text × Text))
      (refresh : Text → Option TokenSet) (error_message : Text) where
    abbrev pub connected_with :
        Service → ℕ → Text → OauthState → TokenSet → Text → Text → Text → Service
    connected_with s now state row tokens a r actor = record s {
      states = Dict.remove s.states state;
      connections =
          Dict.put s.connections row.tenant_id
            (connection_of seal open_sealed exchange resources now tokens a r actor);
    }

    stored_token :
        (s : Service) (now later : ℕ) (tenant : Text) (c : Connection) (t : Text)
        → Dict.get s.connections tenant ≡ some c
        → ltb c.expires_at (later + refresh_safety_margin) ≡ false
        → decrypt seal open_sealed c.access_enc ≡ some t
        → access_token seal open_sealed refresh error_message s later tenant ≡ (s, access t)
    unfolding access_token
    stored_token s now later tenant c t g e d = rw (g, e, d) refl

    -- A callback with a state that is known and in time, a code that the token endpoint takes and
    -- tokens that can be sealed connects the state's tenant; and until five minutes before the access
    -- token expires the tenant gets exactly that token, which is not refreshed. The cipher must open
    -- what it seals.
    pub connect_then_token :
        (s : Service) (now later : ℕ) (state code actor a r : Text) (row : OauthState)
        (tokens : TokenSet)
        → Dict.get s.states state ≡ some row
        → ltb row.expires_at now ≡ false
        → exchange code ≡ some tokens
        → encrypt seal open_sealed tokens.access_token ≡ some a
        → encrypt seal open_sealed tokens.refresh_token ≡ some r
        → later + refresh_safety_margin ≤ now + tokens.expires_in
        → let s' = connected_with s now state row tokens a r actor in
          (complete_connect seal open_sealed exchange resources s now state code actor ≡ (
            s',
            connected row.tenant_id row.return_to (first_site (resources tokens.access_token)).1,
          ))
          × (access_token seal open_sealed refresh error_message s' later row.tenant_id
              ≡ (s', access tokens.access_token))
    unfolding complete_connect
    connect_then_token s now later state code actor a r row tokens known live exchanged sealed
          sealed' soon =
        (
          rw (known, live, exchanged, sealed, sealed') refl,
          stored_token (connected_with s now state row tokens a r actor) now later row.tenant_id
              (connection_of seal open_sealed exchange resources now tokens a r actor)
              tokens.access_token
              (Dict.get-put s.connections row.tenant_id row.tenant_id _
                ∙ rw (same_refl row.tenant_id) refl)
              (ground arith) (decrypt-encrypt tokens.access_token a sealed),
        )
