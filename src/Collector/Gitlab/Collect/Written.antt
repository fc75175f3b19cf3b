-- ===== src/Collector/Gitlab/Collect/Written.antt =====
-- What the loops of a collection from GitLab write.
use dora_metrics_app.Base.{
  ℕ, ◌≡◌, refl, ap, ◌∙◌, inl, inr, String, Bool, true, Option, none, some, List, [], ◌∷◌, is_some,
  ◌==◌, if◌then◌else◌, Bool-cases,
}
use dora_metrics_app.Base.Int.{ℤ}
use dora_metrics_app.Collector.Gitlab.{Environment, Deployment, MergeRequest}
use dora_metrics_app.Collector.Gitlab.Rows.{seen, seen-upsert_row, last_seen}
use dora_metrics_app.Collector.Gitlab.Tables.{
  DeploymentRow, MergeRequestRow, Store, Project, Services, Faults, Handlers, updated_deployment,
  updated_merge_request,
}
use dora_metrics_app.Collector.Gitlab.Loops.{
  Ids, known_id, put_environment, environment_of, put_deployment, collect_environments,
  collect_deployment, collect_deployments, collect_merge_requests, upsert_merge_request,
  deployment_row, merge_request_row, first_commit_of,
}

-- The status and the end of a deployment, and the branch and the instant of a merge.
abbrev pub deployment_seen : ℕ → Store → Option (String × Option ℤ)
deployment_seen k s = seen (λ r. r.external_id) (λ r. (r.status, r.finished_at)) k s.deployments

abbrev pub merge_seen : ℕ → Store → Option (String × Option ℤ)
merge_seen k s = seen (λ r. r.external_id) (λ r. (r.target_branch, r.merged_at)) k s.merge_requests

-- The same of the items that were listed, over what was there before.
abbrev pub deployment_listed :
    ℕ → Option (String × Option ℤ) → List Deployment → Option (String × Option ℤ)
deployment_listed = last_seen (λ d. d.id) (λ d. (d.status, d.finished_at))

abbrev pub merge_listed :
    ℕ → Option (String × Option ℤ) → List MergeRequest → Option (String × Option ℤ)
merge_listed = last_seen (λ m. m.id) (λ m. (m.target_branch, m.merged_at))

unfoldable pub rows : Store → List DeploymentRow × List MergeRequestRow
rows s = (s.deployments, s.merge_requests)

module _ (h : Handlers) (is_prod : String → Bool) (faults : Faults) where
  rows-put_environment :
      (s : Store) (ids : Ids) (e : Environment)
      → rows (put_environment h is_prod faults s ids e).0 ≡ rows s
  unfolding put_environment rows
  rows-put_environment s ids e = elim (Bool-cases (faults.environment e.id)) [
    | inl f ↦ rw f refl
    | inr f ↦ rw f refl
  ]

  pub rows-environments :
      (s : Store) (ids : Ids) (es : List Environment)
      → rows (collect_environments h is_prod faults s ids es).0 ≡ rows s
  unfolding collect_environments
  rows-environments s ids [] = refl
  rows-environments s ids (e ∷ es) =
      let r = put_environment h is_prod faults s ids e in
      elim (Bool-cases (is_some r.2)) [
        | inl t ↦ rw t (rows-environments r.0 r.1 es ∙ rows-put_environment s ids e)
        | inr t ↦ rw t (rows-put_environment s ids e)
      ]

  rows-environment_of :
      (s : Store) (ids : Ids) (e : Environment) (id : Option ℕ)
      → rows (environment_of h is_prod faults s ids e id).0 ≡ rows s
  rows-environment_of s ids e none = rows-put_environment s ids e
  rows-environment_of s ids e (some id) = refl

  -- A deployment that is stored is what its row says afterwards.
  put_deployment_lem :
      (d : Deployment) (r : Store × Ids × Option ℕ)
      → (put_deployment h is_prod faults d r).2 ≡ true
      → ((k : ℕ)
          → deployment_seen k (put_deployment h is_prod faults d r).0
            ≡ (if d.id == k then some (d.status, d.finished_at) else deployment_seen k r.0))
        × ((put_deployment h is_prod faults d r).0.merge_requests ≡ r.0.merge_requests)
  put_deployment_lem d (s, ids, none) t = cc
  put_deployment_lem d (s, ids, some id) t = elim (Bool-cases (faults.deployment d.id)) [
    | inl f ↦ cc (rw f at t)
    | inr f ↦ rw f (
      λ k.
          seen-upsert_row (λ r. r.external_id) (λ r. (r.status, r.finished_at)) updated_deployment
            (deployment_row h is_prod d id) k s.deployments (λ old. refl) (λ old. refl),
      refl,
    )
  ]

  deployment_lem :
      (s : Store) (ids : Ids) (d : Deployment)
      → (collect_deployment h is_prod faults s ids d).2 ≡ true
      → ((k : ℕ)
          → deployment_seen k (collect_deployment h is_prod faults s ids d).0
            ≡ (if d.id == k then some (d.status, d.finished_at) else deployment_seen k s))
        × ((collect_deployment h is_prod faults s ids d).0.merge_requests ≡ s.merge_requests)
  unfolding collect_deployment rows
  deployment_lem s ids d t =
      let r = environment_of h is_prod faults s ids d.environment (known_id d.environment.id ids) in
      let same = rows-environment_of s ids d.environment (known_id d.environment.id ids) in
      let (one, two) = put_deployment_lem d r t in
      (
        λ k.
            one k
            ∙ ap
                (λ x.
                  if d.id == k
                  then some (d.status, d.finished_at)
                  else seen (λ y. y.external_id) (λ y. (y.status, y.finished_at)) k x.0)
                same,
        two ∙ ap (λ x. x.1) same,
      )

  pub deployments_lem :
      (s : Store) (ids : Ids) (ds : List Deployment)
      → (collect_deployments h is_prod faults s ids ds).2 ≡ true
      → ((k : ℕ)
          → deployment_seen k (collect_deployments h is_prod faults s ids ds).0
            ≡ deployment_listed k (deployment_seen k s) ds)
        × ((collect_deployments h is_prod faults s ids ds).0.merge_requests ≡ s.merge_requests)
  unfolding collect_deployments
  deployments_lem s ids [] t = (λ k. refl, refl)
  deployments_lem s ids (d ∷ ds) t =
      let r = collect_deployment h is_prod faults s ids d in
      elim (Bool-cases r.2) [
        | inl u ↦
            let (one, two) = deployment_lem s ids d u in
            let (rest, last) = deployments_lem r.0 r.1 ds (rw u at t) in
            rw u (λ k. rest k ∙ ap (λ b. deployment_listed k b ds) (one k), last ∙ two)
        | inr u ↦ cc (rw u at t)
      ]

pub merge_requests_lem :
    (h : Handlers) (faults : Faults) (gitlab : Services) (p : Project) (s : Store)
    (ms : List MergeRequest)
    → (collect_merge_requests h faults gitlab p s ms).1 ≡ true
    → ((k : ℕ)
        → merge_seen k (collect_merge_requests h faults gitlab p s ms).0
          ≡ merge_listed k (merge_seen k s) ms)
      × ((collect_merge_requests h faults gitlab p s ms).0.deployments ≡ s.deployments)
unfolding collect_merge_requests
merge_requests_lem h faults gitlab p s [] t = (λ k. refl, refl)
merge_requests_lem h faults gitlab p s (m ∷ ms) t = elim (Bool-cases (faults.merge_request m.id)) [
  | inl f ↦ cc (rw f at t)
  | inr f ↦
      let (rest, same) =
        merge_requests_lem h faults gitlab p (upsert_merge_request h gitlab p m s) ms (rw f at t) in
      rw f (
        λ k.
            rest k
            ∙ ap (λ b. merge_listed k b ms)
                (seen-upsert_row (λ r. r.external_id) (λ r. (r.target_branch, r.merged_at))
                  updated_merge_request (merge_request_row h m (first_commit_of h gitlab p m)) k
                  s.merge_requests (λ old. refl) (λ old. refl)),
        same,
      )
]
