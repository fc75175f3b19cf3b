-- ===== src/Collector/Jobs.antt =====
-- The smaller parts of backend/internal/collector/handlers.go: the jobs that enqueue collections, the
-- start of a collection, the first commit of a merge request, bots, and the credentials of a source.
-- Instants are in microseconds. `secret_get` stands for the secret provider, whose none is an error.
-- A task that cannot be enqueued is logged and skipped: `enqueue_fails` says which.
pub mod Since
pub mod Commits
mod Tests
use dora_metrics_app.Base.{
  ℕ, ◌*◌, String, Bool, true, false, not, ◌&&◌, Option, none, some, List, [], ◌∷◌, ◌++◌, ltb, ◌==◌,
  str_eq, if◌then◌else◌,
}
use dora_metrics_app.Base.Int.{ℤ, pos, ltb_ℤ, ◌-ℤ◌}

pub record ActiveProject : Type 0 where
  pub id : ℕ
  pub jira_project_keys : List String

-- `CollectGitlabPayload` and `CollectJiraPayload`
pub data CollectTask : Type 0 where
  collect_gitlab collect_jira : ℕ → ℕ → CollectTask

abbrev pub reconcile_backfill_days : ℕ
reconcile_backfill_days = 7

abbrev has_keys : List String → Bool
has_keys [] = false
has_keys (k ∷ ks) = true

module _ (enqueue_fails : CollectTask → Bool) where
  abbrev enqueue : CollectTask → List CollectTask
  enqueue t = if enqueue_fails t then [] else t ∷ []

  -- The loop that both jobs run, with the days of backfill.
  unfoldable pub collect_all : ℕ → List ActiveProject → List CollectTask
  collect_all days [] = []
  collect_all days (p ∷ ps) =
      enqueue (collect_gitlab p.id days)
      ++ ((if has_keys p.jira_project_keys then enqueue (collect_jira p.id days) else [])
          ++ collect_all days ps)

  -- `none` is the error of the query for the active projects.
  unfoldable pub handle_scan_active_projects :
      Option (List ActiveProject) → Option (List CollectTask)
  unfolding collect_all
  handle_scan_active_projects none = none
  handle_scan_active_projects (some ps) = some (collect_all 0 ps)

  unfoldable pub handle_reconcile_all : Option (List ActiveProject) → Option (List CollectTask)
  unfolding collect_all
  handle_reconcile_all none = none
  handle_reconcile_all (some ps) = some (collect_all reconcile_backfill_days ps)

abbrev pub days : ℕ → ℤ
days n = pos (n * 86_400_000_000)

abbrev pub one_hour : ℤ
one_hour = pos 3_600_000_000

abbrev pub earlier_of : ℤ → ℤ → ℤ
earlier_of forced since = if ltb_ℤ forced since then forced else since

-- The start of a collection from GitLab without a backfill.
unfoldable pub regular_since : ℤ → Option ℤ → ℤ
unfolding ◌-ℤ◌
regular_since now none = now -ℤ days 30
regular_since now (some last_synced_at) = last_synced_at -ℤ one_hour

unfoldable pub collect_since : ℤ → Option ℤ → ℕ → ℤ
unfolding regular_since
collect_since now last_synced_at backfill_days =
    let since = regular_since now last_synced_at in
    if ltb 0 backfill_days then earlier_of (now -ℤ days backfill_days) since else since

-- The days that the JQL of a Jira collection goes back.
unfoldable pub jira_window_days : ℕ → ℕ
jira_window_days backfill_days = if ltb 30 backfill_days then backfill_days else 30

pub record Commit : Type 0 where
  pub id : String
  pub authored_date : ℤ

abbrev pub earlier_commit : Commit → Commit → Commit
earlier_commit earliest c = if ltb_ℤ c.authored_date earliest.authored_date then c else earliest

unfoldable pub earliest_from : Commit → List Commit → Commit
earliest_from earliest [] = earliest
earliest_from earliest (c ∷ cs) = earliest_from (earlier_commit earliest c) cs

-- `firstCommit`, on what the client gives: none where the request fails.
unfoldable pub first_commit : Option (List Commit) → Option Commit
unfolding earliest_from
first_commit none = none
first_commit (some []) = none
first_commit (some (c ∷ cs)) = some (earliest_from c cs)

abbrev pub is_one_of : List String → String → Bool
is_one_of [] s = false
is_one_of (t ∷ ts) s = let rest = is_one_of ts s in if str_eq s t then true else rest

abbrev bots : List String
bots =
    "dependabot" ∷ "dependabot[bot]" ∷ "renovate" ∷ "renovate[bot]" ∷ "renovate-bot" ∷ "gitlab-bot"
    ∷ "ghost-user" ∷ []

-- The author's name, if the merge request has an author.
unfoldable pub is_bot_author : Option String → Bool
is_bot_author none = false
is_bot_author (some username) = is_one_of bots username

pub record SourceInstance : Type 0 where
  pub secret_value : Option String
  pub auth_ref : String
  pub auth_email : Option String

abbrev pub not_empty : Option String → Option String
not_empty none = none
not_empty (some s) = if str_eq s "" then none else some s

module _ (secret_get : String → Option String) where
  abbrev from_ref : String → Option String
  from_ref ref = if str_eq ref "" then none else secret_get ref

  unfoldable pub resolve_token : SourceInstance → Option String
  resolve_token instance_row = elim (not_empty instance_row.secret_value) [
    | some token ↦ some token
    | none ↦ from_ref instance_row.auth_ref
  ]

  unfoldable pub resolve_jira_email : SourceInstance → Option String
  resolve_jira_email instance_row = elim (not_empty instance_row.auth_email) [
    | some email ↦ some email
    | none ↦ secret_get "JIRA_EMAIL"
  ]
