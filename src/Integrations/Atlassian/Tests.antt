-- ===== src/Integrations/Atlassian/Tests.antt =====
-- A tenant that connects. The cipher here puts one code point in front of the text.
use dora_metrics_app.Base.{◌≡◌, refl, Option, none, some, List, [], ◌∷◌, arith}
use dora_metrics_app.Base.Text.{Text, codes, same}
use dora_metrics_app.Base.Dict
use dora_metrics_app.Integrations.Atlassian.{
  Service, OauthState, TokenSet, invalid_state, connected, access, not_connected, start_connect,
  complete_connect, access_token, disconnect, first_site,
}
use dora_metrics_app.Integrations.Atlassian.State.{complete_connect_once}
use dora_metrics_app.Integrations.Atlassian.Token.{OpensSealed, connected_with, connect_then_token}

abbrev seal : Text → Option Text
seal t = some (1 ∷ t)

abbrev open_sealed : Text → Option Text
open_sealed [] = none
open_sealed (c ∷ t) = some t

cipher : OpensSealed seal open_sealed
unfolding same
cipher = record { opens = λ t c h. round t c h; not_empty = λ t c h. cc }
  where
    round : (t c : Text) → seal t ≡ some c → open_sealed c ≡ some t
    round t [] h = cc
    round t (x ∷ c) h = cc

abbrev tokens : TokenSet
tokens = record {
  access_token = codes "at";
  refresh_token = codes "rt";
  expires_in = 3600;
  scope = [];
}

abbrev exchange : Text → Option TokenSet
exchange code = some tokens

abbrev sites : Text → List (Text × Text)
sites token = []

abbrev row : OauthState
row = record { tenant_id = codes "acme"; return_to = codes "/settings"; expires_at = 700 }

abbrev started : Service
started = record { states = Dict.put Dict.empty (codes "s1") row; connections = Dict.empty }

abbrev after : Service
after =
    connected_with seal open_sealed cipher exchange sites exchange [] started 200 (codes "s1") row
      tokens (1 ∷ codes "at") (1 ∷ codes "rt") (codes "ana")

started_by :
    start_connect
      (record { states = Dict.empty; connections = Dict.empty })
      100
      (codes "s1")
      (codes "acme")
      []
    ≡ some started
unfolding start_connect Dict.get Dict.empty
started_by = refl

no_token_when_cut :
    (access_token seal open_sealed exchange []
      (disconnect after (codes "acme"))
      300
      (codes "acme")).1
    ≡ not_connected
unfolding access_token disconnect Dict.get Dict.put Dict.remove Dict.empty same
no_token_when_cut = refl

complete_connect_once_example :
    (complete_connect seal open_sealed exchange sites
      (complete_connect seal open_sealed exchange sites started 200
        (codes "s1")
        (codes "c")
        (codes "ana")).0
      201
      (codes "s1")
      (codes "d")
      (codes "eva")).1
    ≡ invalid_state
complete_connect_once_example =
    complete_connect_once seal open_sealed exchange sites started 200 201 (codes "s1") (codes "c")
      (codes "d") (codes "ana") (codes "eva")

connect_then_token_example :
    (complete_connect seal open_sealed exchange sites started 200
        (codes "s1")
        (codes "c")
        (codes "ana")
      ≡ (after, connected (codes "acme") (codes "/settings") (first_site (sites (codes "at"))).1))
    × (access_token seal open_sealed exchange [] after 3500 (codes "acme")
        ≡ (after, access (codes "at")))
unfolding Dict.get Dict.put Dict.empty same
connect_then_token_example =
    connect_then_token seal open_sealed cipher exchange sites exchange [] started 200 3500
      (codes "s1") (codes "c") (codes "ana") (1 ∷ codes "at") (1 ∷ codes "rt") row tokens refl refl
      refl refl refl (omega arith)
