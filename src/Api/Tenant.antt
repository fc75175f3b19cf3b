-- ===== src/Api/Tenant.antt =====
-- backend/internal/api/tenant.go: which tenant a request is for. `to_lower` stands for
-- `strings.ToLower` and `find` for the query by slug. A handler is a function of the tenant in the
-- context.
pub mod Slug
mod Tests
use dora_metrics_app.Base.{
  ℕ, Bool, true, false, not, ◌&&◌, Option, none, some, List, [], ◌∷◌, leb, ◌==◌, length,
  if◌then◌else◌,
}
use dora_metrics_app.Base.Text.{Text, codes, same, trim_space, split}
use dora_metrics_app.Collector.Dispatch.{Load, found, no_rows, load_error}

pub record TenantInfo : Type 0 where
  pub id : ℕ
  pub slug : Text

-- The header X-Tenant-Slug, the host, and `tenant` of the query; what is missing is empty.
pub record Request : Type 0 where
  pub tenant_header : Text
  pub host : Text
  pub tenant_query : Text

unfoldable pub before_colon : Text → Text
before_colon [] = []
before_colon (c ∷ s) = let rest = before_colon s in if c == b':' then [] else c ∷ rest

abbrev pub is_reserved : Text → Bool
is_reserved s =
    if same s (codes "www")
    then true
    else if same s (codes "api")
    then true
    else same s (codes "localhost")

module _ (to_lower : Text → Text) where
  -- The first label of a host that has three or more, unless it is reserved.
  abbrev pub of_labels : List Text → Option Text
  of_labels (a ∷ b ∷ c ∷ rest) = if is_reserved (to_lower a) then none else some (to_lower a)
  of_labels _ = none

  unfoldable pub extract_tenant_slug : Request → Text
  unfolding before_colon
  extract_tenant_slug r =
      if not (same (trim_space r.tenant_header) [])
      then trim_space r.tenant_header
      else elim (of_labels (split b'.' (before_colon r.host))) [
        | some label ↦ label
        | none ↦ trim_space r.tenant_query
      ]

-- What a handler answers, or the error of the lookup, or the refusal of `RequireTenant`.
pub data Served (A : Type 0) : Type 0 where
  served : A → Served A
  lookup_failed tenant_required : Served A

abbrev pub Handler : Type 0 → Type 0
Handler A = Option TenantInfo → Served A

module _ {A : Type 0} where
  abbrev pub with_found : Handler A → Load TenantInfo → Served A
  with_found next (found t) = next (some t)
  with_found next no_rows = next none
  with_found next load_error = lookup_failed

  unfoldable pub tenant_middleware :
      (Text → Text) → (Text → Load TenantInfo) → Handler A → Request → Served A
  unfolding extract_tenant_slug
  tenant_middleware to_lower find next r =
      if same (extract_tenant_slug to_lower r) []
      then next none
      else with_found next (find (extract_tenant_slug to_lower r))

  unfoldable pub require_tenant : Handler A → Option TenantInfo → Served A
  require_tenant next none = tenant_required
  require_tenant next (some t) = next (some t)
