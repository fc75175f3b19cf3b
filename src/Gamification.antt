-- ===== src/Gamification.antt =====
-- backend/internal/gamification/achievements.go: the achievements of a project.
pub mod Improved
pub mod Once
mod Tests
use mathlib.Core.List.{foldl}
use dora_metrics_app.Base.{
  ℕ, suc, ◌+◌, ◌-◌, ◌≤◌, ◌<◌, String, Bool, true, false, not, ◌&&◌, Option, none, some, List, [],
  ◌∷◌, ◌++◌, length, get_last?, ltb, leb, ◌==◌, str_eq, if◌then◌else◌,
}
use dora_metrics_app.Base.Int.{ℤ, pos, ltb_ℤ, leb_ℤ}
use dora_metrics_app.Tier.{classification_rank}

pub record Achievement : Type 0 where
  pub code : String
  pub title : String
  pub description : String
  pub icon : String
  pub unlocked_at : String

pub record ProjectStats : Type 0 where
  pub days_since_last_incident : ℤ
  pub current_classification : String
  pub sample_size : ℤ
  pub elite_months_count : ℤ
  pub lead_time_median_seconds : Option ℤ
  pub last_incidents_mttr : List ℤ
  pub tier_progression_last3_months : List String

-- The loop over `LastIncidentsMTTR`, which breaks at the first slow one.
unfoldable pub all_fast : List ℤ → Bool
all_fast [] = true
all_fast (mttr ∷ rest) = if leb_ℤ (pos 3600) mttr then false else all_fast rest

-- One round of the loop of `mostImprovedUnlocked`.
abbrev lower : ℕ → String → ℕ
lower min_rank c =
    let r = classification_rank c in if ltb 0 r && ltb r min_rank then r else min_rank

abbrev improved_to : List String → String → Bool
improved_to progression last =
    let latest = classification_rank last in
    if latest == 0 then false else leb 2 (latest - foldl lower latest progression)

-- `none` for the last element stands for an empty list, which the first test has turned away.
abbrev improved_last : List String → Option String → Bool
improved_last progression none = false
improved_last progression (some last) = improved_to progression last

unfoldable pub most_improved_unlocked : List String → Bool
unfolding classification_rank
most_improved_unlocked progression =
    if ltb (length progression) 2 then false else improved_last progression (get_last? progression)

abbrev badge : Bool → Achievement → List Achievement
badge unlocked a = if unlocked then a ∷ [] else []

abbrev is_fast : Option ℤ → Bool
is_fast none = false
is_fast (some median) = ltb_ℤ median (pos 3600)

module _ (now_iso : String) where
  abbrev hundred_green_days : Achievement
  hundred_green_days = record {
    code = "hundred_green_days";
    title = "100 Green Days";
    description = "100+ dias consecutivos sem incident em produção";
    icon = "shield";
    unlocked_at = now_iso;
  }

  abbrev thirty_green_days : Achievement
  thirty_green_days = record {
    code = "thirty_green_days";
    title = "Steady Hand";
    description = "30+ dias sem incident em produção";
    icon = "shield";
    unlocked_at = now_iso;
  }

  abbrev week_streak : Achievement
  week_streak = record {
    code = "week_streak";
    title = "Week Streak";
    description = "7+ dias sem incident — boa cadência";
    icon = "local_fire_department";
    unlocked_at = now_iso;
  }

  abbrev current_elite_tier : Achievement
  current_elite_tier = record {
    code = "current_elite_tier";
    title = "Elite Tier";
    description = "Classificação combinada atual = Elite. Mantenha o ritmo.";
    icon = "workspace_premium";
    unlocked_at = now_iso;
  }

  abbrev first_elite_month : Achievement
  first_elite_month = record {
    code = "first_elite_month";
    title = "First Elite Month";
    description = "Pelo menos um mês inteiro com classificação Elite";
    icon = "rocket_launch";
    unlocked_at = now_iso;
  }

  abbrev speed_demon : Achievement
  speed_demon = record {
    code = "speed_demon";
    title = "Speed Demon";
    description = "Lead Time mediano < 1h com >= 4 deploys na janela";
    icon = "bolt";
    unlocked_at = now_iso;
  }

  abbrev recovery_master : Achievement
  recovery_master = record {
    code = "recovery_master";
    title = "Recovery Master";
    description = "Últimos 5 incidents resolvidos com MTTR < 1h";
    icon = "autorenew";
    unlocked_at = now_iso;
  }

  abbrev most_improved : Achievement
  most_improved = record {
    code = "most_improved";
    title = "Most Improved";
    description = "Salto de pelo menos 2 tiers no histórico recente";
    icon = "trending_up";
    unlocked_at = now_iso;
  }

  -- The switch on the days, and its guard.
  abbrev streak : ProjectStats → List Achievement
  streak s =
      let days = s.days_since_last_incident in
      if ltb_ℤ (pos 0) s.sample_size && leb_ℤ (pos 0) days
      then if leb_ℤ (pos 100) days
        then hundred_green_days ∷ []
        else if leb_ℤ (pos 30) days
        then thirty_green_days ∷ []
        else if leb_ℤ (pos 7) days
        then week_streak ∷ []
        else []
      else []

  unfoldable pub evaluate_achievements : ProjectStats → List Achievement
  unfolding all_fast most_improved_unlocked
  evaluate_achievements s =
      streak s
      ++ (badge (str_eq s.current_classification "elite") current_elite_tier
          ++ (badge (leb_ℤ (pos 1) s.elite_months_count) first_elite_month
              ++ (badge (is_fast s.lead_time_median_seconds && leb_ℤ (pos 4) s.sample_size)
                    speed_demon
                  ++ (badge (leb 5 (length s.last_incidents_mttr) && all_fast s.last_incidents_mttr)
                        recovery_master
                      ++ badge (most_improved_unlocked s.tier_progression_last3_months)
                          most_improved))))
