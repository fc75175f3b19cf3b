-- ===== src/Collector/Jobs/Tests.antt =====
-- A backfill of a week, the commits of a merge request, and the tasks of a nightly run.
use dora_metrics_app.Base.{ℕ, ◌≡◌, refl, String, Bool, true, false, none, some, List, [], ◌∷◌}
use dora_metrics_app.Base.Int.{pos}
use dora_metrics_app.Collector.Jobs.{
  ActiveProject, CollectTask, collect_gitlab, collect_jira, handle_reconcile_all, Commit,
  first_commit, is_bot_author, resolve_token,
}

abbrev never : CollectTask → Bool
never t = false

abbrev projects : List ActiveProject
projects =
    record { id = 1; jira_project_keys = [] }
    ∷ record { id = 2; jira_project_keys = "OPS" ∷ [] }
    ∷ []

nightly :
    handle_reconcile_all never (some projects)
    ≡ some (collect_gitlab 1 7 ∷ collect_gitlab 2 7 ∷ collect_jira 2 7 ∷ [])
unfolding handle_reconcile_all
nightly = refl

abbrev commit : String → ℕ → Commit
commit id n = record { id = id; authored_date = pos n }

abbrev commits : List Commit
commits = commit "b" 20 ∷ commit "a" 10 ∷ commit "c" 10 ∷ []

first_of_commits : first_commit (some commits) ≡ some (commit "a" 10)
unfolding first_commit
first_of_commits = refl

renovate_is_bot : is_bot_author (some "renovate[bot]") ≡ true
unfolding is_bot_author
renovate_is_bot = refl

token_of_row :
    resolve_token
      (λ ref. some "from the vault")
      (record { secret_value = some ""; auth_ref = "GITLAB"; auth_email = none })
    ≡ some "from the vault"
unfolding resolve_token
token_of_row = refl
