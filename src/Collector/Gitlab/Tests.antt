-- ===== src/Collector/Gitlab/Tests.antt =====
-- Examples of a collection from GitLab.
use dora_metrics_app.Base.{
  ℕ, zero, suc, ◌*◌, ◌≡◌, ◌≢◌, ◌↔◌, ◌≤◌, refl, String, Bool, true, false, not, none, some, List, [],
  ◌∷◌, ◌++◌, keep, str_eq, length, concat,
}
use dora_metrics_app.Base.Int.{ℤ, pos, negsuc}
use dora_metrics_app.Base.Text.{codes}
use dora_metrics_app.Collector.Dispatch.{found, TaskResult, done, retry}
use dora_metrics_app.Collector.Jobs.{collect_since, resolve_token}
use dora_metrics_app.Collector.Gitlab.{
  Environment, Deployment, MergeRequest, Request, ok, Reply, answered, Service, atoi, list_all,
  list_environments, list_deployments, list_merge_requests,
}
use dora_metrics_app.Collector.Gitlab.Pages.{Serves, list_all_lem}
use dora_metrics_app.Collector.Gitlab.Tables.{
  Store, Project, Instance, Services, Faults, Handlers, wrap32,
}
use dora_metrics_app.Collector.Gitlab.Collect.{handle_collect_gitlab}
use dora_metrics_app.Collector.Gitlab.Collect.Synced.{handle_collect_gitlab_resumes}
use dora_metrics_app.Collector.Gitlab.Collect.Stored.{Stored, handle_collect_gitlab-Stored}
use dora_metrics_app.Collector.Gitlab.Collect.Succeeds.{sound, handle_collect_gitlab_succeeds}

atoi_examples :
    (atoi (codes "12") ≡ some (pos 12))
    × (atoi (codes "-2") ≡ some (negsuc 1))
    × (atoi [] ≡ none)
    × (atoi (codes "9223372036854775808") ≡ none)
    × (atoi (codes "1x") ≡ none)
unfolding atoi
atoi_examples = (refl, refl, refl, refl, refl)

wrap32_example : wrap32 (pos 2_147_483_648) ≡ negsuc 2_147_483_647
unfolding wrap32
wrap32_example = refl

-- Two pages.
abbrev numbers : Service (List ℕ)
numbers zero q = answered 200 [] (some (1 ∷ 2 ∷ [])) (codes "2")
numbers (suc n) q = answered 200 [] (some (3 ∷ [])) []

abbrev request : ℤ → Request
request page = record { path = []; query = [] }

list_all_example : list_all numbers request 2 ≡ some (ok (1 ∷ 2 ∷ 3 ∷ []))
unfolding list_all
list_all_example = refl

list_all_lem_example : (list_all numbers request 2 ≡ some (ok (1 ∷ 2 ∷ 3 ∷ []))) ↔ (
    (pages : List (List ℕ)) × Serves numbers request 0 (pos 1) pages
    × (length pages ≤ 2)
    × (1 ∷ 2 ∷ 3 ∷ [] ≡ concat pages))
list_all_lem_example = list_all_lem numbers request 2 (1 ∷ 2 ∷ 3 ∷ [])

abbrev production : Environment
production = record { id = 7; name = "production" }

abbrev deployment : Deployment
deployment = record {
  id = 30;
  ref = "main";
  sha = "abc";
  status = "success";
  finished_at = some (pos 500);
  environment = production;
  deployable = none;
  user = some (record { username = "ana" });
}

abbrev merge : MergeRequest
merge = record {
  id = 40;
  iid = 4;
  title = "fix";
  target_branch = "main";
  source_branch = "fix";
  merged_at = some (pos 400);
  merge_commit_sha = some "abc";
  squash_commit_sha = none;
  web_url = "";
  labels = [];
  author = some (record { username = "ana" });
  additions = some (pos 3);
  deletions = none;
}

abbrev answers {ℓ} : {A : Type ℓ} → A → Reply A
answers a = answered 200 [] (some a) []

abbrev services : Services
services = record {
  environments = λ n q. answers (production ∷ []);
  deployments = λ n q. answers (deployment ∷ []);
  merge_requests = λ n q. answers (merge ∷ []);
  commits = λ iid n q. answers (record { id = "c1"; authored_date = pos 300 } ∷ []);
}

abbrev is_production : String → Bool
is_production name = str_eq name "production"

abbrev handlers : Handlers
handlers = record {
  gitlab = λ url token. services;
  secret_get = λ ref. none;
  compile = λ pattern. some is_production;
  rfc3339 = λ t. [];
  fuel = 5;
  now = pos 1_000;
  windows = 7 ∷ 30 ∷ [];
  environment_id = λ id. id * 10;
  deployment_id = λ id. id * 10;
  merge_request_id = λ id. id * 10;
}

abbrev project : Project
project = record {
  external_id = "12";
  default_branch = "main";
  production_env_pattern = "production";
}

abbrev gitlab_instance : Instance
gitlab_instance = record {
  kind = "gitlab";
  base_url = "https://gitlab.com";
  credentials = record { secret_value = some "t"; auth_ref = ""; auth_email = none };
}

abbrev empty_store : Store
empty_store = record {
  environments = [];
  deployments = [];
  merge_requests = [];
  links = [];
  last_synced_at = some (pos 100);
  tasks = [];
}

abbrev none_fails : ℕ → Bool
none_fails n = false

abbrev collected : Store × TaskResult
collected =
    handle_collect_gitlab handlers (sound none_fails) (some 0) (found project)
      (some gitlab_instance) empty_store

-- The merge request is linked to the deployment.
collected_example :
    (collected.0.links ≡ record { deployment_id = 300; merge_request_id = 400 } ∷ [])
    × (collected.0.tasks ≡ 7 ∷ 30 ∷ [])
    × (collected.1 ≡ done)
unfolding handle_collect_gitlab
collected_example = (refl, refl, refl)

-- The merge request cannot be stored.
abbrev broken : Faults
broken = record (sound none_fails) { merge_request = λ id. true }

broken_retry :
    (handle_collect_gitlab handlers broken
      (some 0)
      (found project)
      (some gitlab_instance)
      empty_store).1
    ≡ retry
unfolding handle_collect_gitlab
broken_retry = refl

broken_fails :
    (handle_collect_gitlab handlers broken
      (some 0)
      (found project)
      (some gitlab_instance)
      empty_store).1
    ≢ done
broken_fails h = cc (broken_retry, h)

handle_collect_gitlab_resumes_example :
    ((handle_collect_gitlab handlers broken
        (some 0)
        (found project)
        (some gitlab_instance)
        empty_store).0.tasks
      ≡ [])
    × (collect_since
          (pos 5_000)
          (handle_collect_gitlab handlers broken
            (some 0)
            (found project)
            (some gitlab_instance)
            empty_store).0.last_synced_at
          0
        ≡ collect_since (pos 5_000) (some (pos 100)) 0)
handle_collect_gitlab_resumes_example =
    handle_collect_gitlab_resumes handlers broken (some 0) (found project) (some gitlab_instance)
      empty_store (pos 5_000) 0 broken_fails

handle_collect_gitlab-Stored_example :
    Stored handlers services project
      (collect_since (pos 1_000) (some (pos 100)) 0)
      empty_store
      collected.0
handle_collect_gitlab-Stored_example =
    handle_collect_gitlab-Stored handlers (sound none_fails) 0 project gitlab_instance empty_store
      "t" is_production refl (unfold resolve_token in refl) refl collected_example.2

handle_collect_gitlab_succeeds_example :
    (collected.1 ≡ done) × (collected.0.tasks ≡ [] ++ keep (λ w. not (none_fails w)) (7 ∷ 30 ∷ []))
handle_collect_gitlab_succeeds_example =
    handle_collect_gitlab_succeeds handlers none_fails 0 project gitlab_instance empty_store "t"
      is_production (production ∷ []) (deployment ∷ []) (merge ∷ []) refl
      (unfold resolve_token in refl) refl (unfold list_environments in refl)
      (unfold list_deployments in refl) (unfold list_merge_requests in refl)
