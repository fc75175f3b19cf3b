-- ===== src/Api/Tenant/Tests.antt =====
-- Requests by header, host and query.
use dora_metrics_app.Base.{ℕ, String, ◌≡◌, refl, none, some, map, [], ◌∷◌, if◌then◌else◌}
use dora_metrics_app.Base.Text.{Text, codes, same, trim_space, split}
use dora_metrics_app.Collector.Dispatch.{Load, found, no_rows}
use dora_metrics_app.Api.Tenant.{
  TenantInfo, Request, extract_tenant_slug, served, Handler, tenant_middleware, require_tenant,
}
use dora_metrics_app.Api.Tenant.Slug.{Guards, tenant_middleware-Guards}

abbrev request : String → String → String → Request
request header host query = record {
  tenant_header = codes header;
  host = codes host;
  tenant_query = codes query;
}

-- The texts of the tests are lower already.
abbrev lower : Text → Text
lower s = s

-- The header comes first, then the host, then the query; a host that is an IPv4 address gives its first
-- number.
slugs :
    map (extract_tenant_slug lower) (
      request " acme " "beta.dora.example.com:80" "gamma"
      ∷ request "" "beta.dora.example.com:80" "gamma"
      ∷ request "" "localhost:8080" "gamma"
      ∷ request "" "www.example.com" "gamma"
      ∷ request "" "127.0.0.1:8080" "gamma"
      ∷ [])
    ≡ codes "acme" ∷ codes "beta" ∷ codes "gamma" ∷ codes "gamma" ∷ codes "127" ∷ []
unfolding extract_tenant_slug trim_space split same
slugs = refl

abbrev find : Text → Load TenantInfo
find slug = if same slug (codes "acme") then found (record { id = 3; slug = slug }) else no_rows

abbrev next : Handler ℕ
next none = served 0
next (some t) = served t.id

tenant_middleware-Guards_example :
    Guards next
      (extract_tenant_slug lower (request "acme" "" ""))
      (find (extract_tenant_slug lower (request "acme" "" "")))
      (tenant_middleware lower find (require_tenant next) (request "acme" "" ""))
tenant_middleware-Guards_example = tenant_middleware-Guards lower find next (request "acme" "" "")
