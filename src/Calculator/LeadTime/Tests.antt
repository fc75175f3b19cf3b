-- ===== src/Calculator/LeadTime/Tests.antt =====
-- Runs of the decomposition, and its theorems at concrete instants.
use dora_metrics_app.Base.{◌≡◌, refl, none, some, List, [], ◌∷◌}
use dora_metrics_app.Base.Int.{pos}
use dora_metrics_app.Calculator.LeadTime.{MrTimestamps, LeadTimeBreakdown, decompose}

abbrev merged : MrTimestamps
merged = record {
  first_commit_at = some (pos 0);
  opened_at = some (pos 1_700_000);
  merged_at = some (pos 3_400_000);
  deployed_at = some (pos 5_100_000);
}

abbrev undeployed : MrTimestamps
undeployed = record merged { deployed_at = none }

-- 1 + 1 + 1 seconds of parts, and 5 in all.
parts_lose_two_seconds : decompose merged ≡ record {
  pickup_seconds = some (pos 1);
  review_seconds = some (pos 1);
  deploy_lag_seconds = some (pos 1);
  total_lead_seconds = some (pos 5);
}
unfolding decompose
parts_lose_two_seconds = refl

abbrev two_mrs : List LeadTimeBreakdown
two_mrs = decompose merged ∷ decompose undeployed ∷ []
