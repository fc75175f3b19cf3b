-- ===== src/Gamification/Tests.antt =====
-- Runs of the rules, and the theorems at concrete projects.
use dora_metrics_app.Base.{◌≡◌, ◌≤◌, ◌↔◌, refl, true, some, [], ◌∷◌, map, count}
use dora_metrics_app.Base.Int.{pos}
use dora_metrics_app.Gamification.{ProjectStats, evaluate_achievements, most_improved_unlocked}
use dora_metrics_app.Gamification.Improved.{TwoBelow, most_improved_unlocked_iff}
use dora_metrics_app.Gamification.Once.{with_code, evaluate_achievements_once}

abbrev steady : ProjectStats
steady = record {
  days_since_last_incident = pos 45;
  current_classification = "elite";
  sample_size = pos 12;
  elite_months_count = pos 0;
  lead_time_median_seconds = some (pos 1800);
  last_incidents_mttr = pos 60 ∷ pos 61 ∷ pos 62 ∷ pos 63 ∷ pos 4000 ∷ [];
  tier_progression_last3_months = "low" ∷ "insufficient_data" ∷ "high" ∷ [];
}

unlocked :
    map (λ a. a.code) (evaluate_achievements "2026-05-01" steady)
    ≡ "thirty_green_days" ∷ "current_elite_tier" ∷ "speed_demon" ∷ "most_improved" ∷ []
unfolding evaluate_achievements
unlocked = refl

evaluate_achievements_once_example :
    count (with_code "speed_demon") (evaluate_achievements "2026-05-01" steady) ≤ 1
evaluate_achievements_once_example = evaluate_achievements_once "2026-05-01" "speed_demon" steady

most_improved_unlocked_iff_example :
    (most_improved_unlocked ("low" ∷ "medium" ∷ "high" ∷ []) ≡ true)
    ↔ TwoBelow "high" ("low" ∷ "medium" ∷ "high" ∷ [])
most_improved_unlocked_iff_example =
    most_improved_unlocked_iff ("low" ∷ "medium" ∷ "high" ∷ []) "high" refl
