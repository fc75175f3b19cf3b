-- ===== src/Mcp/OAuth/Clients.antt =====
-- `NewOAuthServer`: the clients of MCP_OAUTH_CLIENTS, "id1:redirect1|id2:redirect2".
use mathlib.Core.List.{foldl, append-nil, append_assoc}
use dora_metrics_app.Base.{
  ◌≡◌, refl, ap, sym, ◌∙◌, Bool, not, Option, none, some, List, [], ◌∷◌, ◌++◌, if◌then◌else◌, inl,
  inr, Bool-cases,
}
use dora_metrics_app.Base.Text.{Text, same, same_iff, trim_space, split, cut}
use dora_metrics_app.Base.Dict
use dora_metrics_app.Base.Dict.{Dict}
use dora_metrics_app.Mcp.OAuth.{OAuthServer}

-- The id and the redirect URI of an entry, or none if the entry is skipped.
unfoldable pub entry_of : Text → Option (Text × Text)
unfolding trim_space cut same
entry_of raw = let entry = trim_space raw in if same entry [] then none else cut b':' entry

abbrev pub uris_of : Option (List Text) → List Text
uris_of none = []
uris_of (some uris) = uris

abbrev add_client : Dict (List Text) → Option (Text × Text) → Dict (List Text)
add_client clients none = clients
add_client clients (some (id, redirect)) =
    Dict.put clients id (uris_of (Dict.get clients id) ++ redirect ∷ [])

-- The body of the loop over the entries.
abbrev register : Dict (List Text) → Text → Dict (List Text)
register clients raw = add_client clients (entry_of raw)

unfoldable pub new_oauth_server : Text → Text → OAuthServer
unfolding entry_of split
new_oauth_server env operator = record {
  clients = foldl register Dict.empty (split b'|' env);
  pending_codes = Dict.empty;
  active_tokens = Dict.empty;
  operator_token = operator;
}

unfoldable pub enabled : OAuthServer → Bool
enabled o = not (Dict.is_empty o.clients)

-- The redirect URIs that the entries give to an id, in their order.
abbrev redirect_for : Text → Option (Text × Text) → List Text
redirect_for id none = []
redirect_for id (some (j, redirect)) = if same j id then redirect ∷ [] else []

abbrev pub redirects : Text → List Text → List Text
redirects id [] = []
redirects id (raw ∷ entries) = redirect_for id (entry_of raw) ++ redirects id entries

abbrev pub listed : List Text → Option (List Text)
listed [] = none
listed (u ∷ uris) = some (u ∷ uris)

-- The map holds for each id what has been seen of it.
abbrev Holds : Dict (List Text) → Text → List Text → Type 0
Holds clients id seen = Dict.get clients id ≡ listed seen

listed-append : (seen : List Text) (u : Text) → uris_of (listed seen) ++ u ∷ [] ≡ seen ++ u ∷ []
listed-append [] u = refl
listed-append (x ∷ xs) u = refl

listed-snoc : (seen : List Text) (u : Text) → listed (seen ++ u ∷ []) ≡ some (seen ++ u ∷ [])
listed-snoc [] u = refl
listed-snoc (x ∷ xs) u = refl

add_client-Holds :
    (clients : Dict (List Text)) (id : Text) (seen : List Text) (entry : Option (Text × Text))
    → Holds clients id seen
    → Holds (add_client clients entry) id (seen ++ redirect_for id entry)
add_client-Holds clients id seen none h = rw append-nil h
add_client-Holds clients id seen (some (j, u)) h = elim (Bool-cases (same j id)) [
  | inr e ↦ rw (e, append-nil) (Dict.get-put clients j id _ ∙ rw e h)
  | inl e ↦ rw e (
      Dict.get-put clients j id _
      ∙ rw e (
          ap some (
            ap (λ k. uris_of (Dict.get clients k) ++ u ∷ []) ((same_iff j id).0 e)
            ∙ ap (λ o. uris_of o ++ u ∷ []) h
            ∙ listed-append seen u)
          ∙ sym (listed-snoc seen u)))
]

foldl-Holds :
    (entries : List Text) (clients : Dict (List Text)) (id : Text) (seen : List Text)
    → Holds clients id seen
    → Holds (foldl register clients entries) id (seen ++ redirects id entries)
foldl-Holds [] clients id seen h = rw append-nil h
foldl-Holds (raw ∷ entries) clients id seen h =
    rw (← append_assoc seen (redirect_for id (entry_of raw)) (redirects id entries)) (
      foldl-Holds entries (register clients raw) id (seen ++ redirect_for id (entry_of raw))
        (add_client-Holds clients id seen (entry_of raw) h))

-- A new server has for each id the redirect URIs of all entries with that id, in their order, and no
-- client for an id that no entry names; entries that are blank or have no colon count for nothing.
pub new_oauth_server-clients :
    (env operator id : Text)
    → Dict.get (new_oauth_server env operator).clients id ≡ listed (redirects id (split b'|' env))
unfolding new_oauth_server
new_oauth_server-clients env operator id =
    foldl-Holds (split b'|' env) Dict.empty id [] (Dict.get-empty id)
