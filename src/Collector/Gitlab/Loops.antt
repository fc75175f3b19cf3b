-- ===== src/Collector/Gitlab/Loops.antt =====
-- The loops of `HandleCollectGitlab` of backend/internal/collector/handlers.go over the environments, the
-- deployments and the merge requests, and its correlation, with their queries.
use dora_metrics_app.Base.{
  ℕ, String, Bool, true, false, ◌&&◌, ◌||◌, Option, none, some, List, [], ◌∷◌, map, keep, take,
  ◌==◌, str_eq, is_some, if◌then◌else◌,
}
use dora_metrics_app.Base.Int.{ℤ, pos, leb_ℤ}
use dora_metrics_app.Base.Sort.{sort}
use dora_metrics_app.Collector.Correlation
use dora_metrics_app.Collector.Correlation.{Link, calls, upsert_all}
use dora_metrics_app.Collector.Jobs.{Commit, first_commit, is_bot_author}
use dora_metrics_app.Collector.Gitlab.{
  Environment, Deployment, MergeRequest, Result, ok, err, list_mr_commits,
}
use dora_metrics_app.Collector.Gitlab.Rows.{find_row, upsert_row, merged}
use dora_metrics_app.Collector.Gitlab.Tables.{
  DeploymentRow, EnvironmentRow, Faults, Handlers, MergeRequestRow, Project, Services, Store,
  author_name, deployable_started, str_ptr, to_int32_ptr, triggered_by, updated_deployment,
  updated_environment, updated_merge_request, username_of, wrap32,
}

-- The row ids by external id that a run has seen, the latest in front.
abbrev pub Ids : Type 0
Ids = List (ℕ × ℕ)

unfoldable pub known_id : ℕ → Ids → Option ℕ
known_id k [] = none
known_id k ((j, id) ∷ ids) = let rest = known_id k ids in if j == k then some id else rest

module _ (h : Handlers) (is_prod : String → Bool) where
  abbrev pub environment_row : Environment → EnvironmentRow
  environment_row e = record {
    id = h.environment_id e.id;
    external_id = e.id;
    name = e.name;
    is_production = is_prod e.name;
    first_seen_at = h.now;
  }

  -- The row that `UpsertEnvironment` gives back.
  abbrev pub returned_environment : Environment → Store → EnvironmentRow
  returned_environment e s =
      merged (λ r. r.external_id) updated_environment (environment_row e)
        (find_row (λ r. r.external_id) e.id s.environments)

  -- An upsert of an environment, with the id of its row, or none where it fails.
  unfoldable pub put_environment : Faults → Store → Ids → Environment → Store × Ids × Option ℕ
  unfolding find_row upsert_row merged
  put_environment faults s ids e = if faults.environment e.id then (s, ids, none) else (
    record s {
      environments =
          upsert_row (λ r. r.external_id) updated_environment (environment_row e) s.environments;
    },
    (e.id, (returned_environment e s).id) ∷ ids,
    some (returned_environment e s).id,
  )

  -- The loop over the environments, with whether it came to its end.
  unfoldable pub collect_environments : Faults → Store → Ids → List Environment → Store × Ids × Bool
  unfolding put_environment
  collect_environments faults s ids [] = (s, ids, true)
  collect_environments faults s ids (e ∷ es) =
      let (s', ids', id) = put_environment faults s ids e in
      let rest = collect_environments faults s' ids' es in
      if is_some id then rest else (s', ids', false)

  -- The environment of a deployment, upserted where the run has not seen it.
  abbrev pub environment_of : Faults → Store → Ids → Environment → Option ℕ → Store × Ids × Option ℕ
  environment_of faults s ids e (some id) = (s, ids, some id)
  environment_of faults s ids e none = put_environment faults s ids e

  abbrev pub deployment_row : Deployment → ℕ → DeploymentRow
  deployment_row d environment = record {
    id = h.deployment_id d.id;
    environment_id = environment;
    external_id = d.id;
    sha = d.sha;
    ref = str_ptr d.ref;
    status = d.status;
    triggered_by = triggered_by d.deployable d.user;
    started_at = deployable_started d.deployable;
    finished_at = d.finished_at;
    is_rollback = false;
  }

  abbrev pub upsert_deployment : Deployment → ℕ → Store → Store
  upsert_deployment d environment s = record s {
    deployments =
        upsert_row (λ r. r.external_id) updated_deployment (deployment_row d environment)
          s.deployments;
  }

  abbrev pub put_deployment : Faults → Deployment → Store × Ids × Option ℕ → Store × Ids × Bool
  put_deployment faults d (s, ids, none) = (s, ids, false)
  put_deployment faults d (s, ids, some environment) =
      if faults.deployment d.id
      then (s, ids, false)
      else (upsert_deployment d environment s, ids, true)

  unfoldable pub collect_deployment : Faults → Store → Ids → Deployment → Store × Ids × Bool
  unfolding put_environment known_id upsert_row
  collect_deployment faults s ids d =
      put_deployment faults d
        (environment_of faults s ids d.environment (known_id d.environment.id ids))

  unfoldable pub collect_deployments : Faults → Store → Ids → List Deployment → Store × Ids × Bool
  unfolding collect_deployment
  collect_deployments faults s ids [] = (s, ids, true)
  collect_deployments faults s ids (d ∷ ds) =
      let (s', ids', goes_on) = collect_deployment faults s ids d in
      let rest = collect_deployments faults s' ids' ds in
      if goes_on then rest else (s', ids', false)

abbrev pub commits_of : Option (Result (List Commit)) → Option (List Commit)
commits_of none = none
commits_of (some (err e)) = none
commits_of (some (ok cs)) = some cs

abbrev pub commit_date : Option Commit → Option ℤ
commit_date none = none
commit_date (some c) = some c.authored_date

abbrev pub commit_sha : Option Commit → Option String
commit_sha none = none
commit_sha (some c) = str_ptr c.id

module _ (h : Handlers) where
  abbrev pub merge_request_row : MergeRequest → Option Commit → MergeRequestRow
  merge_request_row m first = record {
    id = h.merge_request_id m.id;
    external_id = m.id;
    iid = wrap32 (pos m.iid);
    title = m.title;
    author_username = username_of m.author;
    author_is_bot = is_bot_author (author_name m.author);
    target_branch = m.target_branch;
    source_branch = str_ptr m.source_branch;
    merged_at = m.merged_at;
    merge_commit_sha = m.merge_commit_sha;
    squash_commit_sha = m.squash_commit_sha;
    first_commit_at = commit_date first;
    first_commit_sha = commit_sha first;
    additions = to_int32_ptr m.additions;
    deletions = to_int32_ptr m.deletions;
    labels = m.labels;
    web_url = str_ptr m.web_url;
  }

  -- `firstCommit`, which is none where the commits cannot be listed.
  unfoldable pub first_commit_of : Services → Project → MergeRequest → Option Commit
  unfolding list_mr_commits first_commit
  first_commit_of gitlab p m =
      first_commit (commits_of (list_mr_commits (gitlab.commits m.iid) h.fuel p.external_id m.iid))

  abbrev pub upsert_merge_request : Services → Project → MergeRequest → Store → Store
  upsert_merge_request gitlab p m s = record s {
    merge_requests =
        upsert_row (λ r. r.external_id) updated_merge_request
          (merge_request_row m (first_commit_of gitlab p m)) s.merge_requests;
  }

  unfoldable pub collect_merge_requests :
      Faults → Services → Project → Store → List MergeRequest → Store × Bool
  unfolding upsert_row first_commit_of is_bot_author wrap32
  collect_merge_requests faults gitlab p s [] = (s, true)
  collect_merge_requests faults gitlab p s (m ∷ ms) =
      let rest = collect_merge_requests faults gitlab p (upsert_merge_request gitlab p m s) ms in
      if faults.merge_request m.id then (s, false) else rest

-- The join with the environments.
unfoldable pub is_production_id : ℕ → List EnvironmentRow → Bool
is_production_id id [] = false
is_production_id id (e ∷ es) = e.id == id && e.is_production || is_production_id id es

abbrev pub is_production_deployment : List EnvironmentRow → DeploymentRow → Bool
is_production_deployment environments d =
    is_production_id d.environment_id environments
    && (str_eq d.status "success" && is_some d.finished_at)

abbrev not_after : Option ℤ → Option ℤ → Bool
not_after (some a) (some b) = leb_ℤ a b
not_after _ _ = true

abbrev pub list_production_deployments : Store → List Correlation.Deployment
list_production_deployments s =
    map (λ d. record { id = d.id; finished_at = d.finished_at })
      (sort (λ d e. not_after d.finished_at e.finished_at)
        (keep (is_production_deployment s.environments) s.deployments))

abbrev pub list_merge_request_rows : Store → List Correlation.MergeRequest
list_merge_request_rows s =
    map
      (λ m. record {
        id = m.id;
        target_branch = m.target_branch;
        merged_at = m.merged_at;
        author_is_bot = m.author_is_bot;
      })
      s.merge_requests

-- The calls of the correlation that are made.
abbrev pub until_fault {ℓ} : {A : Type ℓ} → Option ℕ → List A → List A
until_fault none cs = cs
until_fault (some n) cs = take n cs

unfoldable pub correlate_rows : Option ℕ → Project → Store → Store
unfolding calls upsert_all is_production_id sort
correlate_rows fault p s = record s {
  links =
      upsert_all
        (until_fault fault
          (calls (list_merge_request_rows s) p.default_branch none (list_production_deployments s)))
        s.links;
}
