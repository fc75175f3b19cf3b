-- ===== src/Mcp/Server/Uri.antt =====
-- Resource URIs of the MCP server, written and read (`parseDoraURI`).
use dora_metrics_app.Base.{
  ◌≤◌, ◌≡◌, ◌≢◌, refl, ◌⊎◌, inl, inr, false, Option, none, some, [], ◌∷◌, ◌++◌, arith, ltb, length,
  length-append, All,
}
use dora_metrics_app.Base.Text.{Text, codes, strip_prefix, strip_prefix-append}
use dora_metrics_app.Mcp.ResourceUri.{until_slash, prefix, try_kind, of_rest, parse_dora_uri}

abbrev pub HasNoSlash : Text → Type 0
HasNoSlash t = All (λ c. c ≢ b'/') t

-- A slash and what follows it, or nothing.
abbrev pub tail_of : Option Text → Text
tail_of none = []
tail_of (some s) = b'/' ∷ s

abbrev pub uri_of : Text → Text → Option Text → Text
uri_of kind id rest = prefix ++ (kind ++ (b'/' ∷ (id ++ tail_of rest)))

until_slash-tail :
    (id : Text) (rest : Option Text) → HasNoSlash id → until_slash (id ++ tail_of rest) ≡ id
unfolding until_slash
until_slash-tail [] none h = refl
until_slash-tail [] (some s) h = refl
until_slash-tail (c ∷ id) rest h = ground (arith, until_slash-tail id rest h.1)

-- The length guard does not refuse a URI whose id has at least three bytes.
long_enough :
    (kind id : Text) (rest : Option Text)
    → 4 ≤ length kind
    → 3 ≤ length id
    → ltb (length (uri_of kind id rest)) 15 ≡ false
long_enough kind id rest h k =
    ground
      (arith, length-append kind (b'/' ∷ (id ++ tail_of rest)), length-append id (tail_of rest))

module _ (parse_uuid : Text → Option Text) where
  try_kind-found :
      (kind id uuid : Text) (rest : Option Text) (next : Option (Text × Text))
      → HasNoSlash id
      → 3 ≤ length id
      → parse_uuid id ≡ some uuid
      → try_kind parse_uuid kind (some (id ++ tail_of rest)) next ≡ some (kind, uuid)
  try_kind-found kind [] uuid rest next n l h = absurd (omega arith)
  try_kind-found kind (c ∷ id) uuid rest next n l h = rw (until_slash-tail (c ∷ id) rest n, h) refl

  of_rest-found :
      (kind id uuid : Text) (rest : Option Text)
      → (kind ≡ codes "project") ⊎ (kind ≡ codes "team")
      → HasNoSlash id
      → 3 ≤ length id
      → parse_uuid id ≡ some uuid
      → of_rest parse_uuid (kind ++ (b'/' ∷ (id ++ tail_of rest))) ≡ some (kind, uuid)
  unfolding strip_prefix
  of_rest-found kind id uuid rest (inl e) n l h =
      rw e (try_kind-found (codes "project") id uuid rest none n l h)
  of_rest-found kind id uuid rest (inr e) n l h =
      rw e (try_kind-found (codes "team") id uuid rest none n l h)

length_of_kind : (kind : Text) → (kind ≡ codes "project") ⊎ (kind ≡ codes "team") → 4 ≤ length kind
length_of_kind kind (inl e) = rw e (omega arith)
length_of_kind kind (inr e) = rw e (omega arith)

-- A URI that is written for a project or a team, with an id of three bytes or more that has no slash,
-- reads as that kind with what the id parses to, whether a slash and more follow the id or nothing.
pub parse_dora_uri_round_trip :
    (parse_uuid : Text → Option Text) (kind id uuid : Text) (rest : Option Text)
    → (kind ≡ codes "project") ⊎ (kind ≡ codes "team")
    → HasNoSlash id
    → 3 ≤ length id
    → parse_uuid id ≡ some uuid
    → parse_dora_uri parse_uuid (uri_of kind id rest) ≡ some (kind, uuid)
unfolding parse_dora_uri
parse_dora_uri_round_trip parse_uuid kind id uuid rest k n l h =
    rw
      (
        long_enough kind id rest (length_of_kind kind k) l,
        strip_prefix-append prefix (kind ++ (b'/' ∷ (id ++ tail_of rest))),
      )
      (of_rest-found parse_uuid kind id uuid rest k n l h)
