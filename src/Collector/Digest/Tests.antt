-- ===== src/Collector/Digest/Tests.antt =====
-- Examples of the weekly digest.
use dora_metrics_app.Base.{
  ℕ, ◌*◌, ◌≡◌, refl, false, none, some, List, [], ◌∷◌, arith, ◌≤◌, ◌+◌, ◌-◌, ◌<◌, if◌then◌else◌,
  ◌&&◌,
}
use dora_metrics_app.Base.Int.{pos}
use dora_metrics_app.Base.Text.{same}
use dora_metrics_app.Base.Sort.{sort}
use dora_metrics_app.Collector.Digest.{
  second, day, DeploymentRow, Scope, Digest, Tables, digest_start, digest_end, digest_of,
  compute_digests, handle_digest_weekly,
}
use dora_metrics_app.Collector.Digest.Week.{IsMonday, digest_week}
use dora_metrics_app.Collector.Digest.Rows.{
  find_digest, figures, is_written, left, handle_digest_weekly_lem,
}

-- Tuesday, 20 January 1970, at nine.
abbrev tuesday : ℕ
tuesday = 19 * day + 32_400 * second

abbrev apps : Scope
apps = record { id = 1; tenant_id = 9; scope_kind = "project" }

abbrev squad : Scope
squad = record { id = 5; tenant_id = 9; scope_kind = "team" }

abbrev deploy : ℕ → ℕ → DeploymentRow
deploy project who = record {
  project_id = project;
  team_id = some 5;
  deployed_at = 13 * day;
  person_id = some who;
  display_name = none;
  triggered_by = some "ci";
}

abbrev tables : Tables
tables = record {
  deployments = deploy 1 7 ∷ deploy 2 8 ∷ deploy 2 8 ∷ [];
  incidents = record { project_id = 2; team_id = some 5; created_at = 18 * day } ∷ [];
  windows =
      record {
        tenant_id = 9;
        scope_kind = "team";
        scope_id = 5;
        computed_at = 12 * day;
        classification = some "high";
      }
      ∷ [];
  read_fails = λ s. false;
  tier_fails = λ s t. false;
  insert_fails = λ s. false;
}

abbrev week_name : ℕ → List ℕ
week_name t = t ∷ []

-- The week is the one of Monday 12; the incident of the 19th is in the next.
squad_digest :
    digest_of week_name tables (digest_start tuesday) (digest_end tuesday) squad ≡ record {
      scope = squad;
      iso_week = 11 * day ∷ [];
      week_start = 11 * day;
      week_end = 18 * day - second;
      deployments_count = 3;
      incidents_count = 0;
      current_tier = some "high";
      previous_tier = none;
      tier_delta = pos 3;
      top =
          record { person_id = some 8; name = "ci"; deploys = 2 }
          ∷ record { person_id = some 7; name = "ci"; deploys = 1 }
          ∷ [];
    }
unfolding digest_of digest_start sort
squad_digest = refl

digest_week_example :
    IsMonday (digest_start tuesday)
    × IsMonday (digest_start tuesday + 7 * day)
    × (digest_start tuesday + 7 * day ≤ tuesday)
    × (tuesday < digest_start tuesday + 14 * day)
    × (digest_end tuesday + second ≡ digest_start tuesday + 7 * day)
digest_week_example = digest_week tuesday (omega arith)

abbrev stored : List Digest
stored =
    compute_digests week_name tables (digest_start tuesday) (digest_end tuesday) (apps ∷ squad ∷ [])
      []

handle_digest_weekly_lem_example :
    (figures (find_digest squad (week_name (digest_start tuesday)) stored) ≡ (
      if is_written tables squad (apps ∷ squad ∷ [])
        && same (week_name (digest_start tuesday)) (week_name (digest_start tuesday))
      then figures
          (some (digest_of week_name tables (digest_start tuesday) (digest_end tuesday) squad))
      else none))
    × (left squad
          (week_name (digest_start tuesday))
          (handle_digest_weekly week_name tables tuesday (some (apps ∷ squad ∷ [])) stored)
        ≡ some (figures (find_digest squad (week_name (digest_start tuesday)) stored)))
unfolding handle_digest_weekly
handle_digest_weekly_lem_example =
    handle_digest_weekly_lem week_name tables tuesday (apps ∷ squad ∷ []) [] stored squad
      (week_name (digest_start tuesday)) refl
