-- ===== src/Collector/Correlation.antt =====
-- `correlateDeploymentsAndMRs` of backend/internal/collector/handlers.go, with the queries that it
-- runs (backend/internal/storage/sql/queries). Instants are in microseconds. A query that fails ends
-- the run with an error and is not modelled.
pub mod First
pub mod Idempotent
mod Tests
use dora_metrics_app.Base.{
  ℕ, ◌*◌, String, Bool, true, false, not, ◌&&◌, ◌||◌, Option, none, some, List, [], ◌∷◌, ◌++◌, map,
  keep, ◌==◌, str_eq, if◌then◌else◌,
}
use dora_metrics_app.Base.Int.{ℤ, pos, ltb_ℤ, leb_ℤ, ◌-ℤ◌}

pub record Deployment : Type 0 where
  pub id : ℕ
  pub finished_at : Option ℤ

pub record MergeRequest : Type 0 where
  pub id : ℕ
  pub target_branch : String
  pub merged_at : Option ℤ
  pub author_is_bot : Bool

pub record Link : Type 0 where
  pub deployment_id : ℕ
  pub merge_request_id : ℕ

abbrev pub backfill : ℤ
backfill = pos (30 * 86_400_000_000)

-- `merged_at > after AND merged_at <= until`
abbrev pub in_interval : ℤ → ℤ → Option ℤ → Bool
in_interval after until none = false
in_interval after until (some t) = ltb_ℤ after t && leb_ℤ t until

abbrev pub is_between : String → ℤ → ℤ → MergeRequest → Bool
is_between branch after until m =
    str_eq m.target_branch branch && (in_interval after until m.merged_at && not m.author_is_bot)

unfoldable pub list_merged_between : List MergeRequest → String → ℤ → ℤ → List MergeRequest
list_merged_between mrs branch after until = keep (is_between branch after until) mrs

-- `from`, with the deployment before this one, if there is one.
abbrev pub interval_start : Option Deployment → ℤ → ℤ
interval_start none until = until -ℤ backfill
interval_start (some prev) until = elim prev.finished_at [ none ↦ until -ℤ backfill | some t ↦ t ]

-- One round of the loop over the deployments: the merge requests that it links to this one.
abbrev pub for_deployment :
    List MergeRequest
    → String
    → Option Deployment
    → Deployment
    → Option ℤ
    → List (Deployment × MergeRequest)
for_deployment mrs branch prev d none = []
for_deployment mrs branch prev d (some until) =
    map (λ m. (d, m)) (list_merged_between mrs branch (interval_start prev until) until)

-- The calls of `UpsertDeploymentMRLink` in order, after the deployment `prev`.
unfoldable pub calls :
    List MergeRequest
    → String
    → Option Deployment
    → List Deployment
    → List (Deployment × MergeRequest)
unfolding list_merged_between ◌-ℤ◌
calls mrs branch prev [] = []
calls mrs branch prev (d ∷ deploys) =
    for_deployment mrs branch prev d d.finished_at ++ calls mrs branch (some d) deploys

abbrev pub is_link : Link → Link → Bool
is_link l k = l.deployment_id == k.deployment_id && l.merge_request_id == k.merge_request_id

abbrev pub has_link : List Link → Link → Bool
has_link [] l = false
has_link (k ∷ ks) l = is_link k l || has_link ks l

-- `INSERT … ON CONFLICT DO NOTHING`
unfoldable pub upsert_link : List Link → Link → List Link
upsert_link links l = if has_link links l then links else links ++ l ∷ []

abbrev pub link_of : Deployment × MergeRequest → Link
link_of (d, m) = record { deployment_id = d.id; merge_request_id = m.id }

unfoldable pub upsert_all : List (Deployment × MergeRequest) → List Link → List Link
unfolding upsert_link
upsert_all [] links = links
upsert_all (c ∷ cs) links = upsert_all cs (upsert_link links (link_of c))

unfoldable pub correlate : List MergeRequest → String → List Deployment → List Link → List Link
unfolding calls upsert_all
correlate mrs branch deploys links = upsert_all (calls mrs branch none deploys) links
