-- ===== src/Collector/Gitlab/Tables.antt =====
-- The tables that a collection from GitLab writes for one project, the conflict clauses of their upserts,
-- and what `HandleCollectGitlab` of backend/internal/collector/handlers.go runs on. External ids are numbers
-- in place of their decimal texts.
use dora_metrics_app.Base.{ℕ, ◌-◌, ◌%◌, String, Bool, Option, none, some, List, ltb, if◌then◌else◌}
use dora_metrics_app.Base.Int.{ℤ, pos, negsuc, sub_ℕ}
use dora_metrics_app.Base.Text.{Text}
use dora_metrics_app.Collector.Correlation.{Link}
use dora_metrics_app.Collector.Jobs.{Commit, SourceInstance, not_empty}
use dora_metrics_app.Collector.Gitlab.{
  User, Environment, Deployable, Deployment, MergeRequest, Service,
}

pub record EnvironmentRow : Type 0 where
  pub id : ℕ
  pub external_id : ℕ
  pub name : String
  pub is_production : Bool
  pub first_seen_at : ℤ

pub record DeploymentRow : Type 0 where
  pub id : ℕ
  pub environment_id : ℕ
  pub external_id : ℕ
  pub sha : String
  pub ref : Option String
  pub status : String
  pub triggered_by : Option String
  pub started_at : Option ℤ
  pub finished_at : Option ℤ
  pub is_rollback : Bool

pub record MergeRequestRow : Type 0 where
  pub id : ℕ
  pub external_id : ℕ
  pub iid : ℤ
  pub title : String
  pub author_username : Option String
  pub author_is_bot : Bool
  pub target_branch : String
  pub source_branch : Option String
  pub merged_at : Option ℤ
  pub merge_commit_sha : Option String
  pub squash_commit_sha : Option String
  pub first_commit_at : Option ℤ
  pub first_commit_sha : Option String
  pub additions : Option ℤ
  pub deletions : Option ℤ
  pub labels : List String
  pub web_url : Option String

-- The rows of the project, the column `last_synced_at` of its own row, and the windows whose
-- computation is queued.
pub record Store : Type 0 where
  pub environments : List EnvironmentRow
  pub deployments : List DeploymentRow
  pub merge_requests : List MergeRequestRow
  pub links : List Link
  pub last_synced_at : Option ℤ
  pub tasks : List ℕ

pub record Project : Type 0 where
  pub external_id : String
  pub default_branch : String
  pub production_env_pattern : String

pub record Instance : Type 0 where
  pub kind : String
  pub base_url : String
  pub credentials : SourceInstance

-- The GitLab of a URL and a token; commits are those of a merge request.
pub record Services : Type 0 where
  pub environments : Service (List Environment)
  pub deployments : Service (List Deployment)
  pub merge_requests : Service (List MergeRequest)
  pub commits : ℕ → Service (List Commit)

-- The queries that fail: an upsert by its external id, the correlation after so many links, the
-- update of `last_synced_at`, and the queueing of a window.
pub record Faults : Type 0 where
  pub environment : ℕ → Bool
  pub deployment : ℕ → Bool
  pub merge_request : ℕ → Bool
  pub correlation : Option ℕ
  pub sync : Bool
  pub enqueue : ℕ → Bool

-- The rest of the world; `compile` stands for `regexp.Compile`, and the ids are those that the database
-- gives to a new row.
pub record Handlers : Type 0 where
  pub gitlab : String → String → Services
  pub secret_get : String → Option String
  pub compile : String → Option (String → Bool)
  pub rfc3339 : ℤ → Text
  pub fuel : ℕ
  pub now : ℤ
  pub windows : List ℕ
  pub environment_id : ℕ → ℕ
  pub deployment_id : ℕ → ℕ
  pub merge_request_id : ℕ → ℕ

-- The conflict clauses: what stays is the old row's id and the columns that are not set.
abbrev pub updated_environment : EnvironmentRow → EnvironmentRow → EnvironmentRow
updated_environment old r = record old { name = r.name; is_production = r.is_production }

abbrev pub updated_deployment : DeploymentRow → DeploymentRow → DeploymentRow
updated_deployment old r = record old { status = r.status; finished_at = r.finished_at }

abbrev pub updated_merge_request : MergeRequestRow → MergeRequestRow → MergeRequestRow
updated_merge_request old r = record r { id = old.id; external_id = old.external_id; iid = old.iid }

abbrev pub str_ptr : String → Option String
str_ptr s = not_empty (some s)

abbrev pub username_of : Option User → Option String
username_of none = none
username_of (some u) = str_ptr u.username

abbrev pub triggered_by : Option Deployable → Option User → Option String
triggered_by none user = username_of user
triggered_by (some d) user = elim d.user [ none ↦ username_of user | some u ↦ str_ptr u.username ]

abbrev pub deployable_started : Option Deployable → Option ℤ
deployable_started none = none
deployable_started (some d) = d.started_at

-- The author's name as it is, for the test on bots.
abbrev pub author_name : Option User → Option String
author_name none = none
author_name (some u) = some u.username

abbrev two_31 : ℕ
two_31 = 2_147_483_648

abbrev two_32 : ℕ
two_32 = 4_294_967_296

abbrev int32_of_bits : ℕ → ℤ
int32_of_bits n = if ltb n two_31 then pos n else sub_ℕ n two_32

-- `int32`
unfoldable pub wrap32 : ℤ → ℤ
wrap32 (pos n) = int32_of_bits (n % two_32)
wrap32 (negsuc n) = int32_of_bits (two_32 - 1 - n % two_32)

abbrev pub to_int32_ptr : Option ℤ → Option ℤ
to_int32_ptr none = none
to_int32_ptr (some n) = some (wrap32 n)
