-- ===== src/Integrations/Atlassian.antt =====
-- backend/internal/integrations/atlassian: service.go and crypto.go. The two tables are dictionaries,
-- by state and by tenant; times are in seconds. `seal` and `open_sealed` stand for AES-GCM with base64
-- (none is an error), `exchange` and `refresh` for the token endpoint, `resources` for the list of
-- sites, empty where it cannot be read. A failing database is not modelled.
pub mod State
pub mod Token
mod Tests
use dora_metrics_app.Base.{
  ℕ, ◌+◌, Bool, true, false, Option, none, some, List, [], ◌∷◌, ltb, if◌then◌else◌,
}
use dora_metrics_app.Base.Text.{Text, codes, same}
use dora_metrics_app.Base.Dict
use dora_metrics_app.Base.Dict.{Dict}

pub record OauthState : Type 0 where
  pub tenant_id : Text
  pub return_to : Text
  pub expires_at : ℕ

pub record Connection : Type 0 where
  pub cloud_id : Text
  pub site_url : Text
  pub access_enc : Text
  pub refresh_enc : Text
  pub expires_at : ℕ
  pub scope : Text
  pub connected_by : Text
  pub last_refreshed_at : ℕ
  pub last_refresh_error : Option Text

pub record Service : Type 0 where
  pub states : Dict OauthState
  pub connections : Dict Connection

pub record TokenSet : Type 0 where
  pub access_token : Text
  pub refresh_token : Text
  pub expires_in : ℕ
  pub scope : Text

abbrev pub state_ttl : ℕ
state_ttl = 600

abbrev pub refresh_safety_margin : ℕ
refresh_safety_margin = 300

abbrev pub or_settings : Text → Text
or_settings return_to = if same return_to [] then codes "/settings" else return_to

abbrev pub insert_state : Service → Text → OauthState → Option OauthState → Option Service
insert_state s state row (some old) = none
insert_state s state row none = some (record s { states = Dict.put s.states state row })

-- none where the random state is in the table, whose primary key it is.
unfoldable pub start_connect : Service → ℕ → Text → Text → Text → Option Service
unfolding same
start_connect s now state tenant_id return_to =
    insert_state s state
      (record {
        tenant_id = tenant_id;
        return_to = or_settings return_to;
        expires_at = now + state_ttl;
      })
      (Dict.get s.states state)

pub data CallbackResult : Type 0 where
  invalid_state expired_state exchange_failed encrypt_failed : CallbackResult
  -- the tenant, the page to return to and the site
  connected : Text → Text → Text → CallbackResult

pub data TokenResult : Type 0 where
  not_connected decrypt_failed no_refresh_token refresh_failed cannot_encrypt : TokenResult
  access : Text → TokenResult

abbrev pub first_site : List (Text × Text) → Text × Text
first_site [] = ([], [])
first_site (site ∷ sites) = site

module _ (seal : Text → Option Text) (open_sealed : Text → Option Text) where
  abbrev pub encrypt : Text → Option Text
  encrypt t = if same t [] then some [] else seal t

  abbrev pub decrypt : Text → Option Text
  decrypt c = if same c [] then some [] else open_sealed c

  module _ (exchange : Text → Option TokenSet) (resources : Text → List (Text × Text)) where
    abbrev pub connection_of : ℕ → TokenSet → Text → Text → Text → Connection
    connection_of now tokens access_enc refresh_enc actor =
        let (cloud_id, site_url) = first_site (resources tokens.access_token) in
        record {
          cloud_id = cloud_id;
          site_url = site_url;
          access_enc = access_enc;
          refresh_enc = refresh_enc;
          expires_at = now + tokens.expires_in;
          scope = tokens.scope;
          connected_by = actor;
          last_refreshed_at = now;
          last_refresh_error = none;
        }

    abbrev pub save_connection :
        Service
        → ℕ
        → OauthState
        → TokenSet
        → Text
        → Option Text
        → Option Text
        → Service × CallbackResult
    save_connection s now row tokens actor none r = (s, encrypt_failed)
    save_connection s now row tokens actor (some a) none = (s, encrypt_failed)
    save_connection s now row tokens actor (some a) (some r) = (
      record s {
        connections = Dict.put s.connections row.tenant_id (connection_of now tokens a r actor);
      },
      connected row.tenant_id row.return_to (first_site (resources tokens.access_token)).1,
    )

    abbrev pub with_tokens :
        Service → ℕ → OauthState → Text → Option TokenSet → Service × CallbackResult
    with_tokens s now row actor none = (s, exchange_failed)
    with_tokens s now row actor (some tokens) =
        save_connection s now row tokens actor (encrypt tokens.access_token)
          (encrypt tokens.refresh_token)

    -- The state is deleted before any check of it: `s` is what is left then.
    abbrev pub with_state : Service → ℕ → Text → Text → Option OauthState → Service × CallbackResult
    with_state s now code actor none = (s, invalid_state)
    with_state s now code actor (some row) =
        if ltb row.expires_at now
        then (s, expired_state)
        else with_tokens s now row actor (exchange code)

    unfoldable pub complete_connect : Service → ℕ → Text → Text → Text → Service × CallbackResult
    unfolding same
    complete_connect s now state code actor =
        with_state (record s { states = Dict.remove s.states state }) now code actor
          (Dict.get s.states state)

  module _ (refresh : Text → Option TokenSet) (error_message : Text) where
    abbrev pub rotated : Text → Text → Option Text
    rotated old_enc refresh_token =
        if same refresh_token [] then some old_enc else encrypt refresh_token

    abbrev pub save_refreshed :
        Service
        → ℕ
        → Text
        → Connection
        → TokenSet
        → Option Text
        → Option Text
        → Service × TokenResult
    save_refreshed s now tenant c tokens none r = (s, cannot_encrypt)
    save_refreshed s now tenant c tokens (some a) none = (s, cannot_encrypt)
    save_refreshed s now tenant c tokens (some a) (some r) = (
      record s {
        connections = Dict.put s.connections tenant (record c {
          access_enc = a;
          refresh_enc = r;
          expires_at = now + tokens.expires_in;
          last_refreshed_at = now;
          last_refresh_error = none;
        });
      },
      access tokens.access_token,
    )

    abbrev pub with_refreshed :
        Service → ℕ → Text → Connection → Option TokenSet → Service × TokenResult
    with_refreshed s now tenant c none = (
      record s {
        connections =
            Dict.put s.connections tenant (record c { last_refresh_error = some error_message });
      },
      refresh_failed,
    )
    with_refreshed s now tenant c (some tokens) =
        save_refreshed s now tenant c tokens (encrypt tokens.access_token)
          (rotated c.refresh_enc tokens.refresh_token)

    abbrev pub with_refresh_token :
        Service → ℕ → Text → Connection → Option Text → Service × TokenResult
    with_refresh_token s now tenant c none = (s, decrypt_failed)
    with_refresh_token s now tenant c (some token) =
        if same token []
        then (s, no_refresh_token)
        else with_refreshed s now tenant c (refresh token)

    abbrev pub decrypted : Option Text → TokenResult
    decrypted none = decrypt_failed
    decrypted (some token) = access token

    abbrev pub with_connection : Service → ℕ → Text → Option Connection → Service × TokenResult
    with_connection s now tenant none = (s, not_connected)
    with_connection s now tenant (some c) =
        if ltb c.expires_at (now + refresh_safety_margin)
        then with_refresh_token s now tenant c (decrypt c.refresh_enc)
        else (s, decrypted (decrypt c.access_enc))

    unfoldable pub access_token : Service → ℕ → Text → Service × TokenResult
    unfolding same
    access_token s now tenant = with_connection s now tenant (Dict.get s.connections tenant)

unfoldable pub disconnect : Service → Text → Service
disconnect s tenant = record s { connections = Dict.remove s.connections tenant }
