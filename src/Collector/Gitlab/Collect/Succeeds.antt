-- ===== src/Collector/Gitlab/Collect/Succeeds.antt =====
-- A collection from GitLab where nothing fails.
use dora_metrics_app.Base.{
  ℕ, ◌≡◌, refl, ap, ◌∙◌, inl, inr, String, Bool, true, false, not, none, some, List, [], ◌∷◌, ◌++◌,
  keep, str_eq, Option-cases,
}
use dora_metrics_app.Base.Int.{ℤ}
use dora_metrics_app.Collector.Dispatch.{found, TaskResult, done}
use dora_metrics_app.Collector.Jobs.{collect_since, resolve_token}
use dora_metrics_app.Collector.Gitlab.{Environment, Deployment, MergeRequest, ok, list_environments}
use dora_metrics_app.Collector.Gitlab.Tables.{Store, Project, Instance, Services, Faults, Handlers}
use dora_metrics_app.Collector.Gitlab.Loops.{
  Ids, known_id, put_environment, collect_environments, collect_deployment, collect_deployments,
  collect_merge_requests, upsert_merge_request,
}
use dora_metrics_app.Collector.Gitlab.Collect.{
  after_merge_requests, after_deployments, after_environments, handle_collect_gitlab,
}
use dora_metrics_app.Collector.Gitlab.Collect.Synced.{
  progress-environments, progress-deployments, progress-merge_requests, progress-correlate,
}
use dora_metrics_app.Collector.Gitlab.Collect.Stored.{deployments_since, merge_requests_since}

-- No query fails; a window may still not be queued.
abbrev pub sound : (ℕ → Bool) → Faults
sound enqueue = record {
  environment = λ _. false;
  deployment = λ _. false;
  merge_request = λ _. false;
  correlation = none;
  sync = false;
  enqueue = enqueue;
}

module _ (h : Handlers) (queue : ℕ → Bool) where
  module _ (is_prod : String → Bool) where
    environments_over :
        (s : Store) (ids : Ids) (es : List Environment)
        → (collect_environments h is_prod (sound queue) s ids es).2 ≡ true
    unfolding collect_environments put_environment
    environments_over s ids [] = refl
    environments_over s ids (e ∷ es) =
        environments_over (put_environment h is_prod (sound queue) s ids e).0
          (put_environment h is_prod (sound queue) s ids e).1 es

    deployment_over :
        (s : Store) (ids : Ids) (d : Deployment)
        → (collect_deployment h is_prod (sound queue) s ids d).2 ≡ true
    unfolding collect_deployment put_environment
    deployment_over s ids d = elim (Option-cases (known_id d.environment.id ids)) [
      | inl e ↦ rw e refl
      | inr (id, e) ↦ rw e refl
    ]

    deployments_over :
        (s : Store) (ids : Ids) (ds : List Deployment)
        → (collect_deployments h is_prod (sound queue) s ids ds).2 ≡ true
    unfolding collect_deployments
    deployments_over s ids [] = refl
    deployments_over s ids (d ∷ ds) = rw (deployment_over s ids d) (
        deployments_over (collect_deployment h is_prod (sound queue) s ids d).0
          (collect_deployment h is_prod (sound queue) s ids d).1 ds)

  merge_requests_over :
      (gitlab : Services) (p : Project) (s : Store) (ms : List MergeRequest)
      → (collect_merge_requests h (sound queue) gitlab p s ms).1 ≡ true
  unfolding collect_merge_requests
  merge_requests_over gitlab p s [] = refl
  merge_requests_over gitlab p s (m ∷ ms) =
      merge_requests_over gitlab p (upsert_merge_request h gitlab p m s) ms

  -- The end of a run that goes on to it: success, with the windows queued.
  Ends : List ℕ → Store × TaskResult → Type 0
  Ends before (s, result) =
      (result ≡ done) × (s.tasks ≡ before ++ keep (λ w. not (queue w)) h.windows)

  after_merge_requests-Ends :
      (p : Project) (before : List ℕ) (r : Store × Bool)
      → r.1 ≡ true
      → r.0.tasks ≡ before
      → Ends before (after_merge_requests h (sound queue) p r)
  unfolding Ends
  after_merge_requests-Ends p before (s, false) t e = cc
  after_merge_requests-Ends p before (s, true) t e = (
    refl,
    ap (λ x. x ++ keep (λ w. not (queue w)) h.windows)
        (ap (λ x. x.1) (progress-correlate none p s) ∙ e),
  )

  module _ (gitlab : Services) (p : Project) (before : List ℕ) where
    after_deployments-Ends :
        (since : ℤ) (ms : List MergeRequest) (r : Store × Ids × Bool)
        → merge_requests_since h gitlab p since ≡ some (ok ms)
        → r.2 ≡ true
        → r.0.tasks ≡ before
        → Ends before (after_deployments h (sound queue) gitlab p since r)
    after_deployments-Ends since ms (s, ids, false) m t e = cc
    after_deployments-Ends since ms (s, ids, true) m t e = rw m (
        after_merge_requests-Ends p before (collect_merge_requests h (sound queue) gitlab p s ms)
          (merge_requests_over gitlab p s ms)
          (ap (λ x. x.1) (progress-merge_requests h (sound queue) gitlab p s ms) ∙ e))

    after_environments-Ends :
        (is_prod : String → Bool) (since : ℤ) (ds : List Deployment) (ms : List MergeRequest)
        (r : Store × Ids × Bool)
        → deployments_since h gitlab p since ≡ some (ok ds)
        → merge_requests_since h gitlab p since ≡ some (ok ms)
        → r.2 ≡ true
        → r.0.tasks ≡ before
        → Ends before (after_environments h (sound queue) gitlab p is_prod since r)
    after_environments-Ends is_prod since ds ms (s, ids, false) d m t e = cc
    after_environments-Ends is_prod since ds ms (s, ids, true) d m t e = rw d (
        after_deployments-Ends since ms (collect_deployments h is_prod (sound queue) s ids ds) m
          (deployments_over is_prod s ids ds)
          (ap (λ x. x.1) (progress-deployments h is_prod (sound queue) s ids ds) ∙ e))

-- A collection from GitLab of a project with a token and a valid pattern, where the client's lists
-- succeed and no query fails, succeeds, and queues the computation of each window but those whose
-- queueing fails.
pub handle_collect_gitlab_succeeds :
    (h : Handlers) (queue : ℕ → Bool) (days : ℕ) (p : Project) (i : Instance) (s : Store)
    (token : String) (is_prod : String → Bool) (es : List Environment) (ds : List Deployment)
    (ms : List MergeRequest)
    → str_eq i.kind "gitlab" ≡ true
    → resolve_token h.secret_get i.credentials ≡ some token
    → h.compile p.production_env_pattern ≡ some is_prod
    → list_environments (h.gitlab i.base_url token).environments p.external_id ≡ ok es
    → deployments_since h (h.gitlab i.base_url token) p (collect_since h.now s.last_synced_at days)
      ≡ some (ok ds)
    → merge_requests_since h
        (h.gitlab i.base_url token)
        p
        (collect_since h.now s.last_synced_at days)
      ≡ some (ok ms)
    → ((handle_collect_gitlab h (sound queue) (some days) (found p) (some i) s).1 ≡ done)
      × ((handle_collect_gitlab h (sound queue) (some days) (found p) (some i) s).0.tasks
          ≡ s.tasks ++ keep (λ w. not (queue w)) h.windows)
unfolding handle_collect_gitlab Ends
handle_collect_gitlab_succeeds h queue days p i s token is_prod es ds ms kind t c environments
      deployments merges =
    rw (kind, t, c, environments)
      (after_environments-Ends h queue (h.gitlab i.base_url token) p s.tasks is_prod
        (collect_since h.now s.last_synced_at days) ds ms
        (collect_environments h is_prod (sound queue) s [] es) deployments merges
        (environments_over h queue is_prod s [] es)
        (ap (λ x. x.1) (progress-environments h is_prod (sound queue) s [] es)))
