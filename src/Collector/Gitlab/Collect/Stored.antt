-- ===== src/Collector/Gitlab/Collect/Stored.antt =====
-- What a successful collection from GitLab has stored.
use dora_metrics_app.Base.{
  ℕ, ◌≡◌, refl, ap, ◌∙◌, inl, inr, String, Bool, true, false, Option, none, some, List, [], is_some,
  str_eq, Bool-cases,
}
use dora_metrics_app.Base.Int.{ℤ, pos}
use dora_metrics_app.Collector.Dispatch.{found, done}
use dora_metrics_app.Collector.Jobs.{collect_since, resolve_token}
use dora_metrics_app.Collector.Gitlab.{
  Environment, Deployment, MergeRequest, Result, ok, err, list_environments, list_deployments,
  list_merge_requests,
}
use dora_metrics_app.Collector.Gitlab.Rows.{seen}
use dora_metrics_app.Collector.Gitlab.Tables.{Store, Project, Instance, Services, Faults, Handlers}
use dora_metrics_app.Collector.Gitlab.Loops.{
  Ids, collect_environments, collect_deployments, collect_merge_requests, correlate_rows,
}
use dora_metrics_app.Collector.Gitlab.Collect.{
  after_merge_requests, store_merge_requests, after_deployments, store_deployments,
  after_environments, store_environments, handle_collect_gitlab,
}
use dora_metrics_app.Collector.Gitlab.Collect.Written.{
  deployment_seen, merge_seen, deployment_listed, merge_listed, rows, rows-environments,
  deployments_lem, merge_requests_lem,
}

module _ (h : Handlers) where
  -- From one store to another, when these deployments and merge requests were listed.
  abbrev pub Holds : Store → Store → List Deployment → List MergeRequest → Type 0
  Holds s s' ds ms =
      (s'.last_synced_at ≡ some h.now)
      × ((k : ℕ) → deployment_seen k s' ≡ deployment_listed k (deployment_seen k s) ds)
      × ((k : ℕ) → merge_seen k s' ≡ merge_listed k (merge_seen k s) ms)

  module _ (gitlab : Services) (p : Project) where
    -- What the client lists from an instant on.
    abbrev pub merge_requests_since : ℤ → Option (Result (List MergeRequest))
    merge_requests_since since =
        list_merge_requests h.rfc3339 gitlab.merge_requests h.fuel p.external_id (record {
          state = "merged";
          target_branch = p.default_branch;
          updated_after = some since;
          per_page = pos 100;
        })

    abbrev pub deployments_since : ℤ → Option (Result (List Deployment))
    deployments_since since =
        list_deployments h.rfc3339 gitlab.deployments h.fuel p.external_id
          (record { environment = ""; status = ""; updated_after = some since; per_page = pos 100 })

    -- Both lists, and what the store holds of them.
    abbrev pub Stored : ℤ → Store → Store → Type 0
    Stored since s s' =
        (ds : List Deployment) × (ms : List MergeRequest) × (deployments_since since ≡ some (ok ds))
        × (merge_requests_since since ≡ some (ok ms))
        × Holds s s' ds ms

module _ (h : Handlers) (faults : Faults) where
  -- A run that ends well after its rows are written: the instant moves and the rows stay.
  after_merge_requests_lem :
      (p : Project) (r : Store × Bool)
      → (after_merge_requests h faults p r).1 ≡ done
      → (r.1 ≡ true)
        × ((after_merge_requests h faults p r).0.last_synced_at ≡ some h.now)
        × (rows (after_merge_requests h faults p r).0 ≡ rows r.0)
  unfolding rows correlate_rows
  after_merge_requests_lem p (s, false) t = cc
  after_merge_requests_lem p (s, true) t = elim (Bool-cases (is_some faults.correlation)) [
    | inl f ↦ cc (rw f at t)
    | inr f ↦ elim (Bool-cases faults.sync) [
      | inl g ↦ cc (rw (f, g) at t)
      | inr g ↦ rw (f, g) (refl, refl, refl)
    ]
  ]

  module _ (gitlab : Services) (p : Project) where
    store_merge_requests_lem :
        (s : Store) (r : Option (Result (List MergeRequest)))
        → (store_merge_requests h faults gitlab p s r).1 ≡ done
        → (ms : List MergeRequest) × (r ≡ some (ok ms))
          × Holds h s (store_merge_requests h faults gitlab p s r).0 [] ms
    unfolding rows
    store_merge_requests_lem s none t = cc
    store_merge_requests_lem s (some (err x)) t = cc
    store_merge_requests_lem s (some (ok ms)) t =
        let (over, synced, same) =
          after_merge_requests_lem p (collect_merge_requests h faults gitlab p s ms) t in
        let (merges, deployments) = merge_requests_lem h faults gitlab p s ms over in
        (
          ms,
          refl,
          (
            synced,
            λ k.
                ap (λ x. seen (λ r. r.external_id) (λ r. (r.status, r.finished_at)) k x)
                  (ap (λ x. x.0) same ∙ deployments),
            λ k.
                ap (λ x. seen (λ r. r.external_id) (λ r. (r.target_branch, r.merged_at)) k x.1) same
                ∙ merges k,
          ),
        )

    after_deployments_lem :
        (since : ℤ) (r : Store × Ids × Bool)
        → (after_deployments h faults gitlab p since r).1 ≡ done
        → (r.2 ≡ true)
          × ((ms : List MergeRequest) × (merge_requests_since h gitlab p since ≡ some (ok ms))
              × Holds h r.0 (after_deployments h faults gitlab p since r).0 [] ms)
    after_deployments_lem since (s, ids, false) t = cc
    after_deployments_lem since (s, ids, true) t =
        (refl, store_merge_requests_lem s (merge_requests_since h gitlab p since) t)

    store_deployments_lem :
        (is_prod : String → Bool) (since : ℤ) (s : Store) (ids : Ids)
        → (store_deployments h faults gitlab p is_prod since s ids
            (deployments_since h gitlab p since)).1
          ≡ done
        → Stored h gitlab p since s
            (store_deployments h faults gitlab p is_prod since s ids
              (deployments_since h gitlab p since)).0
    store_deployments_lem is_prod since s ids t = go (deployments_since h gitlab p since) refl t
      where
        go :
            (r : Option (Result (List Deployment)))
            → deployments_since h gitlab p since ≡ r
            → (store_deployments h faults gitlab p is_prod since s ids r).1 ≡ done
            → Stored h gitlab p since s
                (store_deployments h faults gitlab p is_prod since s ids r).0
        go none e u = cc
        go (some (err x)) e u = cc
        go (some (ok ds)) e u =
            let (over, (ms, listed, (synced, kept, merges))) =
              after_deployments_lem since (collect_deployments h is_prod faults s ids ds) u in
            let (says, same) = deployments_lem h is_prod faults s ids ds over in
            (
              ds,
              ms,
              e,
              listed,
              (
                synced,
                λ k. kept k ∙ says k,
                λ k.
                    merges k
                    ∙ ap
                        (λ x.
                          merge_listed k
                            (seen (λ r. r.external_id) (λ r. (r.target_branch, r.merged_at)) k x)
                            ms)
                        same,
              ),
            )

    after_environments_lem :
        (is_prod : String → Bool) (since : ℤ) (r : Store × Ids × Bool)
        → (after_environments h faults gitlab p is_prod since r).1 ≡ done
        → Stored h gitlab p since r.0 (after_environments h faults gitlab p is_prod since r).0
    after_environments_lem is_prod since (s, ids, false) t = cc
    after_environments_lem is_prod since (s, ids, true) t =
        store_deployments_lem is_prod since s ids t

    store_environments_lem :
        (is_prod : String → Bool) (since : ℤ) (s : Store) (r : Result (List Environment))
        → (store_environments h faults gitlab p is_prod since s r).1 ≡ done
        → Stored h gitlab p since s (store_environments h faults gitlab p is_prod since s r).0
    unfolding rows
    store_environments_lem is_prod since s (err x) t = cc
    store_environments_lem is_prod since s (ok es) t =
        let (ds, ms, e, listed, (synced, kept, merges)) =
          after_environments_lem is_prod since (collect_environments h is_prod faults s [] es) t in
        let same = rows-environments h is_prod faults s [] es in
        (
          ds,
          ms,
          e,
          listed,
          (
            synced,
            λ k.
                kept k
                ∙ ap
                    (λ x.
                      deployment_listed k
                        (seen (λ r. r.external_id) (λ r. (r.status, r.finished_at)) k x.0) ds)
                    same,
            λ k.
                merges k
                ∙ ap
                    (λ x.
                      merge_listed k
                        (seen (λ r. r.external_id) (λ r. (r.target_branch, r.merged_at)) k x.1) ms)
                    same,
          ),
        )

-- A collection from GitLab of a project with a token and a valid pattern that succeeds has listed, from
-- the start of its window on, the project's deployments and its merge requests that are merged into
-- the default branch; afterwards each deployment has the status and the end, and each merge request
-- the branch and the instant of its merge, of the last item listed with its id, the other rows say
-- what they did, and the project is synced as of now.
pub handle_collect_gitlab-Stored :
    (h : Handlers) (faults : Faults) (days : ℕ) (p : Project) (i : Instance) (s : Store)
    (token : String) (is_prod : String → Bool)
    → str_eq i.kind "gitlab" ≡ true
    → resolve_token h.secret_get i.credentials ≡ some token
    → h.compile p.production_env_pattern ≡ some is_prod
    → (handle_collect_gitlab h faults (some days) (found p) (some i) s).1 ≡ done
    → Stored h
        (h.gitlab i.base_url token)
        p
        (collect_since h.now s.last_synced_at days)
        s
        (handle_collect_gitlab h faults (some days) (found p) (some i) s).0
unfolding handle_collect_gitlab
handle_collect_gitlab-Stored h faults days p i s token is_prod kind t c over =
    rw (kind, t, c)
      (store_environments_lem h faults (h.gitlab i.base_url token) p is_prod
        (collect_since h.now s.last_synced_at days) s
        (list_environments (h.gitlab i.base_url token).environments p.external_id)
        (rw (kind, t, c) at over))
