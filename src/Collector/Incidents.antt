-- ===== src/Collector/Incidents.antt =====
-- The loop of `HandleCollectJira` in backend/internal/collector/handlers.go: each incident is stored
-- and linked to the deployment that may have caused it, which the query `FindDeploymentForIncident`
-- of backend/internal/storage/sql/queries finds. Instants are in microseconds. Of two deployments
-- that finish at one instant the query may give either, and the model gives the first. A query that
-- fails ends the run with an error and is not modelled.
pub mod Cause
mod Tests
use dora_metrics_app.Base.{
  ℕ, ◌*◌, String, Bool, true, false, ◌&&◌, ◌||◌, Option, none, some, List, [], ◌∷◌, ◌++◌, keep,
  ◌==◌, str_eq, if◌then◌else◌,
}
use dora_metrics_app.Base.Int.{ℤ, pos, ltb_ℤ, leb_ℤ, ◌-ℤ◌}

-- A row of platform.deployment with `is_production` of its environment.
pub record DeploymentRow : Type 0 where
  pub id : ℕ
  pub project_id : ℕ
  pub is_production : Bool
  pub status : String
  pub finished_at : Option ℤ

pub record Incident : Type 0 where
  pub id : ℕ
  pub created_at : ℤ

abbrev pub incident_link_lookback : ℤ
incident_link_lookback = pos 86_400_000_000

abbrev pub finished_between : ℤ → ℤ → Option ℤ → Bool
finished_between floor created none = false
finished_between floor created (some t) = leb_ℤ t created && leb_ℤ floor t

abbrev pub is_candidate : ℕ → ℤ → ℤ → DeploymentRow → Bool
is_candidate project created floor d =
    d.project_id == project
    && (d.is_production
        && (str_eq d.status "success" && finished_between floor created d.finished_at))

abbrev pub is_before : Option ℤ → Option ℤ → Bool
is_before (some s) (some t) = ltb_ℤ s t
is_before _ _ = false

abbrev pub later_of : DeploymentRow → Option DeploymentRow → DeploymentRow
later_of d none = d
later_of d (some e) = if is_before d.finished_at e.finished_at then e else d

-- `ORDER BY finished_at DESC LIMIT 1`
unfoldable pub latest : List DeploymentRow → Option DeploymentRow
latest [] = none
latest (d ∷ ds) = some (later_of d (latest ds))

unfoldable pub find_deployment_for_incident : List DeploymentRow → ℕ → ℤ → ℤ → Option DeploymentRow
unfolding latest
find_deployment_for_incident rows project created floor =
    latest (keep (is_candidate project created floor) rows)

-- An incident and its link, as one round of the loop leaves them: `link` is the deployment that
-- `UpsertDeploymentIncidentLink` gets, with the reason "time_window".
pub record Linked : Type 0 where
  pub incident : Incident
  pub link : Option ℕ

abbrev pub id_of : Option DeploymentRow → Option ℕ
id_of none = none
id_of (some d) = some d.id

unfoldable pub link_incidents : List DeploymentRow → ℕ → List Incident → List Linked
unfolding find_deployment_for_incident ◌-ℤ◌
link_incidents rows project [] = []
link_incidents rows project (i ∷ is) =
    let cause =
      find_deployment_for_incident rows project i.created_at
        (i.created_at -ℤ incident_link_lookback) in
    record { incident = i; link = id_of cause } ∷ link_incidents rows project is
