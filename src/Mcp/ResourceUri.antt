-- ===== src/Mcp/ResourceUri.antt =====
-- `parseDoraURI` of backend/internal/mcp/server/server.go. A URI is the list of its bytes; `parse_uuid`
-- stands for `uuid.Parse`.
use dora_metrics_app.Base.{◌+◌, Option, none, some, [], ◌∷◌, ltb, ◌==◌, length, if◌then◌else◌}
use dora_metrics_app.Base.Text.{Text, codes, strip_prefix}

-- The text up to the first slash.
unfoldable pub until_slash : Text → Text
until_slash [] = []
until_slash (c ∷ s) = let rest = until_slash s in if c == b'/' then [] else c ∷ rest

abbrev pub prefix : Text
prefix = codes "dora://"

module _ (parse_uuid : Text → Option Text) where
  abbrev pub with_id : Text → Option Text → Option (Text × Text)
  with_id kind none = none
  with_id kind (some id) = some (kind, id)

  -- A round of the loop over the kinds, `next` being the rest of it: the marker must be followed by
  -- something.
  abbrev pub try_kind : Text → Option Text → Option (Text × Text) → Option (Text × Text)
  try_kind kind none next = next
  try_kind kind (some []) next = next
  try_kind kind (some (c ∷ tail)) next = with_id kind (parse_uuid (until_slash (c ∷ tail)))

  abbrev pub of_rest : Text → Option (Text × Text)
  of_rest rest =
      try_kind (codes "project") (strip_prefix (codes "project/") rest)
        (try_kind (codes "team") (strip_prefix (codes "team/") rest) none)

  unfoldable pub parse_dora_uri : Text → Option (Text × Text)
  parse_dora_uri uri =
      if ltb (length uri) (length prefix + 8)
      then none
      else elim (strip_prefix prefix uri) [ none ↦ none | some rest ↦ of_rest rest ]
