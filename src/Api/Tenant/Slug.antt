-- ===== src/Api/Tenant/Slug.antt =====
-- What a handler that requires a tenant sees.
use dora_metrics_app.Base.{
  ◌≡◌, ◌≢◌, refl, ◌⊎◌, inl, inr, true, false, Option, none, some, [], arith, if◌then◌else◌,
  Bool-cases,
}
use dora_metrics_app.Base.Text.{Text, same, same_iff}
use dora_metrics_app.Collector.Dispatch.{Load, found, no_rows, load_error}
use dora_metrics_app.Api.Tenant.{
  TenantInfo, Request, extract_tenant_slug, Served, lookup_failed, tenant_required, Handler,
  with_found, tenant_middleware, require_tenant,
}

-- The answer for a slug and what the lookup of it gives.
abbrev pub Guards :
    {A : Type 0} → (Option TenantInfo → Served A) → Text → Load TenantInfo → Served A → Type 0
Guards next slug (found t) answer =
    ((slug ≢ []) × (answer ≡ next (some t))) ⊎ ((slug ≡ []) × (answer ≡ tenant_required))
Guards next slug no_rows answer = answer ≡ tenant_required
Guards next slug load_error answer =
    ((slug ≢ []) × (answer ≡ lookup_failed)) ⊎ ((slug ≡ []) × (answer ≡ tenant_required))

module _ {A : Type 0} (next : Handler A) (slug : Text) where
  Guards-empty : (l : Load TenantInfo) → slug ≡ [] → Guards next slug l tenant_required
  Guards-empty (found t) e = inr (e, refl)
  Guards-empty no_rows e = refl
  Guards-empty load_error e = inr (e, refl)

  Guards-with_found :
      (l : Load TenantInfo) → slug ≢ [] → Guards next slug l (with_found (require_tenant next) l)
  unfolding require_tenant
  Guards-with_found (found t) n = inl (n, refl)
  Guards-with_found no_rows n = refl
  Guards-with_found load_error n = inl (n, refl)

-- A handler behind both middlewares runs exactly if the slug of the request is not empty and is that of
-- a tenant, and then with that tenant; without a slug or for an unknown one the answer is
-- `tenant_required`, and `lookup_failed` where the query fails.
pub tenant_middleware-Guards :
    {A : Type 0} (to_lower : Text → Text) (find : Text → Load TenantInfo) (next : Handler A)
    (r : Request)
    → Guards next
        (extract_tenant_slug to_lower r)
        (find (extract_tenant_slug to_lower r))
        (tenant_middleware to_lower find (require_tenant next) r)
unfolding tenant_middleware
tenant_middleware-Guards to_lower find next r =
    go (extract_tenant_slug to_lower r) (Bool-cases (same (extract_tenant_slug to_lower r) []))
  where
    go :
        (slug : Text)
        → (same slug [] ≡ true) ⊎ (same slug [] ≡ false)
        → Guards next slug (find slug) (
            if same slug []
            then require_tenant next none
            else with_found (require_tenant next) (find slug))
    go slug (inl e) =
        rw e (unfold require_tenant in Guards-empty next slug (find slug) ((same_iff slug []).0 e))
    go slug (inr e) = rw e (
        Guards-with_found next slug (find slug)
          (λ empty. let hit : same slug [] ≡ true = (same_iff slug []).1 empty in ground arith))
