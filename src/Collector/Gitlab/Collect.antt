-- ===== src/Collector/Gitlab/Collect.antt =====
-- `HandleCollectGitlab` of backend/internal/collector/handlers.go: a collection of the environments,
-- deployments and merge requests of one project, with the queries that it runs
-- (backend/internal/storage/sql/queries), on tables that hold this project's rows. External ids are
-- numbers in place of their decimal texts. Each call of the clock gives `now`.
pub mod Synced
pub mod Written
pub mod Stored
pub mod Succeeds
use dora_metrics_app.Base.{
  ℕ, zero, suc, ◌+◌, ◌-◌, ◌%◌, String, Bool, true, false, not, ◌&&◌, ◌||◌, Option, none, some, List,
  [], ◌∷◌, ◌++◌, map, keep, ltb, take, ◌==◌, str_eq, is_some, if◌then◌else◌,
}
use dora_metrics_app.Base.Int.{ℤ, pos, negsuc, sub_ℕ, leb_ℤ, ◌-ℤ◌}
use dora_metrics_app.Base.Sort.{sort}
use dora_metrics_app.Base.Text.{Text}
use dora_metrics_app.Collector.Correlation
use dora_metrics_app.Collector.Correlation.{Link, calls, upsert_all}
use dora_metrics_app.Collector.Dispatch.{
  Load, found, no_rows, load_error, TaskResult, done, retry, skip_retry,
}
use dora_metrics_app.Collector.Jobs.{
  Commit, SourceInstance, collect_since, first_commit, is_bot_author, not_empty, resolve_token,
}
use dora_metrics_app.Collector.Gitlab.{
  User, Environment, Deployable, Deployment, MergeRequest, Result, ok, err, Service,
  list_environments, list_deployments, list_merge_requests, list_mr_commits,
}
use dora_metrics_app.Collector.Gitlab.Rows.{find_row, upsert_row, merged}
use dora_metrics_app.Collector.Gitlab.Tables.{Faults, Handlers, Instance, Project, Services, Store}
use dora_metrics_app.Collector.Gitlab.Loops.{
  Ids, collect_deployments, collect_environments, collect_merge_requests, correlate_rows,
}

module _ (h : Handlers) (faults : Faults) where
  -- The update of `last_synced_at` and the tasks of the windows.
  abbrev pub finished : Store → Store × TaskResult
  finished s = if faults.sync then (s, retry) else (
    record s {
      last_synced_at = some h.now;
      tasks = s.tasks ++ keep (λ w. not (faults.enqueue w)) h.windows;
    },
    done,
  )

  abbrev pub after_merge_requests : Project → Store × Bool → Store × TaskResult
  after_merge_requests p (s, false) = (s, retry)
  after_merge_requests p (s, true) =
      let s' = correlate_rows faults.correlation p s in
      if is_some faults.correlation then (s', retry) else finished s'

  module _ (gitlab : Services) (p : Project) where
    -- A list is none only where its fuel ran out.
    abbrev pub store_merge_requests :
        Store → Option (Result (List MergeRequest)) → Store × TaskResult
    store_merge_requests s none = (s, retry)
    store_merge_requests s (some (err e)) = (s, retry)
    store_merge_requests s (some (ok ms)) =
        after_merge_requests p (collect_merge_requests h faults gitlab p s ms)

    abbrev pub after_deployments : ℤ → Store × Ids × Bool → Store × TaskResult
    after_deployments since (s, ids, false) = (s, retry)
    after_deployments since (s, ids, true) = store_merge_requests s (
        list_merge_requests h.rfc3339 gitlab.merge_requests h.fuel p.external_id (record {
          state = "merged";
          target_branch = p.default_branch;
          updated_after = some since;
          per_page = pos 100;
        }))

    abbrev pub store_deployments :
        (String → Bool) → ℤ → Store → Ids → Option (Result (List Deployment)) → Store × TaskResult
    store_deployments is_prod since s ids none = (s, retry)
    store_deployments is_prod since s ids (some (err e)) = (s, retry)
    store_deployments is_prod since s ids (some (ok ds)) =
        after_deployments since (collect_deployments h is_prod faults s ids ds)

    abbrev pub after_environments : (String → Bool) → ℤ → Store × Ids × Bool → Store × TaskResult
    after_environments is_prod since (s, ids, false) = (s, retry)
    after_environments is_prod since (s, ids, true) = store_deployments is_prod since s ids (
        list_deployments h.rfc3339 gitlab.deployments h.fuel p.external_id (record {
          environment = "";
          status = "";
          updated_after = some since;
          per_page = pos 100;
        }))

    abbrev pub store_environments :
        (String → Bool) → ℤ → Store → Result (List Environment) → Store × TaskResult
    store_environments is_prod since s (err e) = (s, retry)
    store_environments is_prod since s (ok es) =
        after_environments is_prod since (collect_environments h is_prod faults s [] es)

    abbrev pub with_pattern : ℕ → Store → Option (String → Bool) → Store × TaskResult
    with_pattern days s none = (s, skip_retry)
    with_pattern days s (some is_prod) =
        store_environments is_prod (collect_since h.now s.last_synced_at days) s
          (list_environments gitlab.environments p.external_id)

  abbrev pub with_token : ℕ → Project → Instance → Store → Option String → Store × TaskResult
  with_token days p i s none = (s, retry)
  with_token days p i s (some token) =
      with_pattern (h.gitlab i.base_url token) p days s (h.compile p.production_env_pattern)

  -- Any error of the query for the instance is retried.
  abbrev pub with_instance : ℕ → Project → Store → Option Instance → Store × TaskResult
  with_instance days p s none = (s, retry)
  with_instance days p s (some i) =
      if str_eq i.kind "gitlab"
      then with_token days p i s (resolve_token h.secret_get i.credentials)
      else (s, done)

  abbrev pub with_project : ℕ → Load Project → Option Instance → Store → Store × TaskResult
  with_project days no_rows i s = (s, done)
  with_project days load_error i s = (s, retry)
  with_project days (found p) i s = with_instance days p s i

  -- The days of the payload, or none where it does not parse.
  unfoldable pub handle_collect_gitlab :
      Option ℕ → Load Project → Option Instance → Store → Store × TaskResult
  unfolding collect_environments list_environments list_deployments list_merge_requests
      collect_deployments collect_merge_requests correlate_rows collect_since resolve_token
  handle_collect_gitlab none p i s = (s, skip_retry)
  handle_collect_gitlab (some days) p i s = with_project days p i s
