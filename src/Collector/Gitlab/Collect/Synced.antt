-- ===== src/Collector/Gitlab/Collect/Synced.antt =====
-- A collection from GitLab that does not come to its end: what it leaves of the state that a later one
-- starts from.
use dora_metrics_app.Base.{
  ℕ, ◌≡◌, ◌≢◌, refl, ap, ◌∙◌, inl, inr, String, Bool, true, false, Option, none, some, List, [],
  ◌∷◌, is_some, str_eq, Bool-cases,
}
use dora_metrics_app.Base.Int.{ℤ}
use dora_metrics_app.Collector.Dispatch.{Load, found, no_rows, load_error, TaskResult, done}
use dora_metrics_app.Collector.Jobs.{collect_since, resolve_token}
use dora_metrics_app.Collector.Gitlab.{Environment, Deployment, MergeRequest, Result, ok, err}
use dora_metrics_app.Collector.Gitlab.Tables.{Store, Project, Instance, Services, Faults, Handlers}
use dora_metrics_app.Collector.Gitlab.Loops.{
  Ids, known_id, put_environment, environment_of, put_deployment, collect_environments,
  collect_deployment, collect_deployments, collect_merge_requests, upsert_merge_request,
  correlate_rows,
}
use dora_metrics_app.Collector.Gitlab.Collect.{
  finished, after_merge_requests, store_merge_requests, after_deployments, store_deployments,
  after_environments, store_environments, with_pattern, with_token, with_instance, with_project,
  handle_collect_gitlab,
}

-- The instant and the tasks of a store.
abbrev pub progress : Store → Option ℤ × List ℕ
progress s = (s.last_synced_at, s.tasks)

module _ (h : Handlers) (is_prod : String → Bool) (faults : Faults) where
  progress-put_environment :
      (s : Store) (ids : Ids) (e : Environment)
      → progress (put_environment h is_prod faults s ids e).0 ≡ progress s
  unfolding put_environment
  progress-put_environment s ids e = elim (Bool-cases (faults.environment e.id)) [
    | inl f ↦ rw f refl
    | inr f ↦ rw f refl
  ]

  pub progress-environments :
      (s : Store) (ids : Ids) (es : List Environment)
      → progress (collect_environments h is_prod faults s ids es).0 ≡ progress s
  unfolding collect_environments
  progress-environments s ids [] = refl
  progress-environments s ids (e ∷ es) =
      let r = put_environment h is_prod faults s ids e in
      elim (Bool-cases (is_some r.2)) [
        | inl t ↦ rw t (progress-environments r.0 r.1 es ∙ progress-put_environment s ids e)
        | inr t ↦ rw t (progress-put_environment s ids e)
      ]

  progress-put_deployment :
      (d : Deployment) (r : Store × Ids × Option ℕ)
      → progress (put_deployment h is_prod faults d r).0 ≡ progress r.0
  progress-put_deployment d (s, ids, none) = refl
  progress-put_deployment d (s, ids, some id) = elim (Bool-cases (faults.deployment d.id)) [
    | inl f ↦ rw f refl
    | inr f ↦ rw f refl
  ]

  progress-environment_of :
      (s : Store) (ids : Ids) (e : Environment) (id : Option ℕ)
      → progress (environment_of h is_prod faults s ids e id).0 ≡ progress s
  progress-environment_of s ids e none = progress-put_environment s ids e
  progress-environment_of s ids e (some id) = refl

  progress-deployment :
      (s : Store) (ids : Ids) (d : Deployment)
      → progress (collect_deployment h is_prod faults s ids d).0 ≡ progress s
  unfolding collect_deployment
  progress-deployment s ids d =
      progress-put_deployment d
        (environment_of h is_prod faults s ids d.environment (known_id d.environment.id ids))
      ∙ progress-environment_of s ids d.environment (known_id d.environment.id ids)

  pub progress-deployments :
      (s : Store) (ids : Ids) (ds : List Deployment)
      → progress (collect_deployments h is_prod faults s ids ds).0 ≡ progress s
  unfolding collect_deployments
  progress-deployments s ids [] = refl
  progress-deployments s ids (d ∷ ds) =
      let r = collect_deployment h is_prod faults s ids d in
      elim (Bool-cases r.2) [
        | inl t ↦ rw t (progress-deployments r.0 r.1 ds ∙ progress-deployment s ids d)
        | inr t ↦ rw t (progress-deployment s ids d)
      ]

pub progress-merge_requests :
    (h : Handlers) (faults : Faults) (gitlab : Services) (p : Project) (s : Store)
    (ms : List MergeRequest)
    → progress (collect_merge_requests h faults gitlab p s ms).0 ≡ progress s
unfolding collect_merge_requests
progress-merge_requests h faults gitlab p s [] = refl
progress-merge_requests h faults gitlab p s (m ∷ ms) =
    elim (Bool-cases (faults.merge_request m.id)) [
      | inl f ↦ rw f refl
      | inr f ↦
          rw f (progress-merge_requests h faults gitlab p (upsert_merge_request h gitlab p m s) ms)
    ]

pub progress-correlate :
    (n : Option ℕ) (p : Project) (s : Store) → progress (correlate_rows n p s) ≡ progress s
unfolding correlate_rows
progress-correlate n p s = refl

-- An outcome of a run: with a result that is not success, the instant and the tasks are the old ones.
abbrev Kept : Option ℤ × List ℕ → Store × TaskResult → Type 0
Kept before (s, result) = result ≢ done → progress s ≡ before

module _ (h : Handlers) (faults : Faults) where
  finished-Kept :
      (before : Option ℤ × List ℕ) (s : Store)
      → progress s ≡ before
      → Kept before (finished h faults s)
  finished-Kept before s e = elim (Bool-cases faults.sync) [
    | inl f ↦ rw f (λ _. e)
    | inr f ↦ rw f (λ fails. absurd (fails refl))
  ]

  after_merge_requests-Kept :
      (before : Option ℤ × List ℕ) (p : Project) (r : Store × Bool)
      → progress r.0 ≡ before
      → Kept before (after_merge_requests h faults p r)
  after_merge_requests-Kept before p (s, false) e = λ _. e
  after_merge_requests-Kept before p (s, true) e = elim (Bool-cases (is_some faults.correlation)) [
    | inl f ↦ rw f (λ _. progress-correlate faults.correlation p s ∙ e)
    | inr f ↦ rw f (
        finished-Kept before (correlate_rows faults.correlation p s)
          (progress-correlate faults.correlation p s ∙ e))
  ]

  module _ (gitlab : Services) (p : Project) (before : Option ℤ × List ℕ) where
    merge_requests-Kept :
        (s : Store) (r : Option (Result (List MergeRequest)))
        → progress s ≡ before
        → Kept before (store_merge_requests h faults gitlab p s r)
    merge_requests-Kept s none e = λ _. e
    merge_requests-Kept s (some (err x)) e = λ _. e
    merge_requests-Kept s (some (ok ms)) e =
        after_merge_requests-Kept before p (collect_merge_requests h faults gitlab p s ms)
          (progress-merge_requests h faults gitlab p s ms ∙ e)

    after_deployments-Kept :
        (since : ℤ) (r : Store × Ids × Bool)
        → progress r.0 ≡ before
        → Kept before (after_deployments h faults gitlab p since r)
    after_deployments-Kept since (s, ids, false) e = λ _. e
    after_deployments-Kept since (s, ids, true) e = merge_requests-Kept s _ e

    deployments-Kept :
        (is_prod : String → Bool) (since : ℤ) (s : Store) (ids : Ids)
        (r : Option (Result (List Deployment)))
        → progress s ≡ before
        → Kept before (store_deployments h faults gitlab p is_prod since s ids r)
    deployments-Kept is_prod since s ids none e = λ _. e
    deployments-Kept is_prod since s ids (some (err x)) e = λ _. e
    deployments-Kept is_prod since s ids (some (ok ds)) e =
        after_deployments-Kept since (collect_deployments h is_prod faults s ids ds)
          (progress-deployments h is_prod faults s ids ds ∙ e)

    after_environments-Kept :
        (is_prod : String → Bool) (since : ℤ) (r : Store × Ids × Bool)
        → progress r.0 ≡ before
        → Kept before (after_environments h faults gitlab p is_prod since r)
    after_environments-Kept is_prod since (s, ids, false) e = λ _. e
    after_environments-Kept is_prod since (s, ids, true) e =
        deployments-Kept is_prod since s ids _ e

    environments-Kept :
        (is_prod : String → Bool) (since : ℤ) (s : Store) (r : Result (List Environment))
        → progress s ≡ before
        → Kept before (store_environments h faults gitlab p is_prod since s r)
    environments-Kept is_prod since s (err x) e = λ _. e
    environments-Kept is_prod since s (ok es) e =
        after_environments-Kept is_prod since (collect_environments h is_prod faults s [] es)
          (progress-environments h is_prod faults s [] es ∙ e)

    pattern-Kept :
        (days : ℕ) (s : Store) (r : Option (String → Bool))
        → progress s ≡ before
        → Kept before (with_pattern h faults gitlab p days s r)
    pattern-Kept days s none e = λ _. e
    pattern-Kept days s (some is_prod) e = environments-Kept is_prod _ s _ e

  token-Kept :
      (days : ℕ) (p : Project) (i : Instance) (s : Store) (t : Option String)
      → Kept (progress s) (with_token h faults days p i s t)
  token-Kept days p i s none = λ _. refl
  token-Kept days p i s (some t) = pattern-Kept (h.gitlab i.base_url t) p (progress s) days s _ refl

  instance-Kept :
      (days : ℕ) (p : Project) (s : Store) (i : Option Instance)
      → Kept (progress s) (with_instance h faults days p s i)
  instance-Kept days p s none = λ _. refl
  instance-Kept days p s (some i) = elim (Bool-cases (str_eq i.kind "gitlab")) [
    | inl k ↦ rw k (token-Kept days p i s (resolve_token h.secret_get i.credentials))
    | inr k ↦ rw k (λ fails. absurd (fails refl))
  ]

  project-Kept :
      (days : ℕ) (p : Load Project) (i : Option Instance) (s : Store)
      → Kept (progress s) (with_project h faults days p i s)
  project-Kept days no_rows i s = λ _. refl
  project-Kept days load_error i s = λ _. refl
  project-Kept days (found p) i s = instance-Kept days p s i

  payload-Kept :
      (d : Option ℕ) (p : Load Project) (i : Option Instance) (s : Store)
      → Kept (progress s) (handle_collect_gitlab h faults d p i s)
  unfolding handle_collect_gitlab
  payload-Kept none p i s = λ _. refl
  payload-Kept (some days) p i s = project-Kept days p i s

-- Whatever fails in a collection from GitLab, a request, a query or the credentials, and wherever it
-- does: if its result is not success then no computation of a window is queued, and a later
-- collection, at any instant and with any backfill, starts at the same instant as if the failed one
-- had not been.
pub handle_collect_gitlab_resumes :
    (h : Handlers) (faults : Faults) (days : Option ℕ) (p : Load Project) (i : Option Instance)
    (s : Store) (later : ℤ) (next_days : ℕ)
    → (handle_collect_gitlab h faults days p i s).1 ≢ done
    → ((handle_collect_gitlab h faults days p i s).0.tasks ≡ s.tasks)
      × (collect_since later (handle_collect_gitlab h faults days p i s).0.last_synced_at next_days
          ≡ collect_since later s.last_synced_at next_days)
handle_collect_gitlab_resumes h faults days p i s later next_days fails =
    let kept = payload-Kept h faults days p i s fails in
    (ap (λ x. x.1) kept, ap (λ x. collect_since later x.0 next_days) kept)
