-- ===== src/Collector/Incidents/Tests.antt =====
-- Four deployments and two incidents.
use dora_metrics_app.Base.{ℕ, ◌≡◌, refl, ◌*◌, String, true, none, some, List, [], ◌∷◌, map, All}
use dora_metrics_app.Base.Int.{ℤ, pos, ◌-ℤ◌}
use dora_metrics_app.Collector.Incidents.{DeploymentRow, Incident, link_incidents}
use dora_metrics_app.Collector.Incidents.Cause.{IsLinked, link_incidents-IsLinked}

-- An instant in hours.
abbrev at_hour : ℕ → ℤ
at_hour n = pos (n * 3_600_000_000)

abbrev row : ℕ → ℕ → String → DeploymentRow
row id n status = record {
  id = id;
  project_id = 7;
  is_production = true;
  status = status;
  finished_at = some (at_hour n);
}

abbrev rows : List DeploymentRow
rows = row 1 100 "success" ∷ row 2 110 "success" ∷ row 3 115 "failed" ∷ row 4 130 "success" ∷ []

abbrev incidents : List Incident
incidents =
    record { id = 50; created_at = at_hour 120 }
    ∷ record { id = 51; created_at = at_hour 154 }
    ∷ record { id = 52; created_at = at_hour 155 }
    ∷ []

links_of_incidents :
    map (λ l. l.link) (link_incidents rows 7 incidents) ≡ some 2 ∷ some 4 ∷ none ∷ []
unfolding link_incidents ◌-ℤ◌
links_of_incidents = refl

link_incidents-IsLinked_example :
    All (IsLinked rows 7) (link_incidents rows 7 incidents)
    × (map (λ l. l.incident) (link_incidents rows 7 incidents) ≡ incidents)
link_incidents-IsLinked_example = link_incidents-IsLinked rows 7 incidents
