-- ===== src/Collector/Gitlab/Rows.antt =====
-- Tables of one project whose rows have an external id as their key, with `INSERT … ON CONFLICT
-- (project_id, external_id) DO UPDATE`, as UpsertEnvironment, UpsertDeployment and UpsertMergeRequest of
-- backend/internal/storage/sql/queries do it.
use dora_metrics_app.Base.{ℕ, ◌≡◌, Option, none, some, List, [], ◌∷◌, arith, ◌==◌, if◌then◌else◌}

module _ {R : Type 0} (key : R → ℕ) where
  -- The row of a key.
  unfoldable pub find_row : ℕ → List R → Option R
  find_row k [] = none
  find_row k (r ∷ rows) = let rest = find_row k rows in if key r == k then some r else rest

  -- `update` is what the conflict makes of the old row and the new one.
  unfoldable pub upsert_row : (R → R → R) → R → List R → List R
  upsert_row update r [] = r ∷ []
  upsert_row update r (old ∷ rows) =
      let rest = upsert_row update r rows in
      if key old == key r then update old r ∷ rows else old ∷ rest

  -- The row that an insertion makes.
  unfoldable pub merged : (R → R → R) → R → Option R → R
  merged update r none = r
  merged update r (some old) = update old r

  pub find_row-upsert_row :
      (update : R → R → R) (r : R) (k : ℕ) (rows : List R)
      → ((old : R) → key (update old r) ≡ key old)
      → find_row k (upsert_row update r rows)
        ≡ (if key r == k then some (merged update r (find_row k rows)) else find_row k rows)
  unfolding find_row upsert_row merged
  find_row-upsert_row update r k [] same = ground arith
  find_row-upsert_row update r k (old ∷ rows) same =
      ground (arith, same old, find_row-upsert_row update r k rows same)

module _ {R V : Type 0} (key : R → ℕ) (value : R → V) where
  -- What a table says of a key.
  abbrev pub viewed : Option R → Option V
  viewed none = none
  viewed (some r) = some (value r)

  abbrev pub seen : ℕ → List R → Option V
  seen k rows = viewed (find_row key k rows)

  pub seen-upsert_row :
      (update : R → R → R) (r : R) (k : ℕ) (rows : List R)
      → ((old : R) → key (update old r) ≡ key old)
      → ((old : R) → value (update old r) ≡ value r)
      → seen k (upsert_row key update r rows) ≡ (if key r == k then some (value r) else seen k rows)
  unfolding find_row upsert_row
  seen-upsert_row update r k [] same says = ground arith
  seen-upsert_row update r k (old ∷ rows) same says =
      ground (arith, same old, says old, seen-upsert_row update r k rows same says)

-- What the last item of a list with a key says, or else what was known before.
abbrev pub last_seen : {A V : Type 0} → (A → ℕ) → (A → V) → ℕ → Option V → List A → Option V
last_seen id value k before [] = before
last_seen id value k before (x ∷ xs) =
    last_seen id value k (if id x == k then some (value x) else before) xs
