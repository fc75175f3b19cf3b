-- ===== src/Tier.antt =====
-- The DORA tiers. Go compares them as strings, and four packages carry a table of their ranks:
-- backend/internal/calculator/classification.go (the map of `WorstOf`),
-- backend/internal/alerts/tier.go, backend/internal/collector/alerts.go and digest.go,
-- backend/internal/gamification/achievements.go.
pub mod Ranks
pub mod Changes
mod Tests
use dora_metrics_app.Base.{
  ℕ, String, Bool, true, false, not, ◌&&◌, ◌||◌, Option, none, some, str_eq, if◌then◌else◌,
}
use dora_metrics_app.Base.Int.{ℤ, pos, negsuc, ltb_ℤ, leb_ℤ}

abbrev pub tier_elite : String
tier_elite = "elite"

abbrev pub tier_high : String
tier_high = "high"

abbrev pub tier_medium : String
tier_medium = "medium"

abbrev pub tier_low : String
tier_low = "low"

abbrev pub tier_insufficient_data : String
tier_insufficient_data = "insufficient_data"

-- The four known tiers, for tables that give every other string one value.
abbrev pub by_tier {ℓ} : {A : Type ℓ} → A → A → A → A → A → String → A
by_tier e h m l other t =
    if str_eq t "elite"
    then e
    else if str_eq t "high"
    then h
    else if str_eq t "medium"
    then m
    else if str_eq t "low"
    then l
    else other

-- `TierOrder`: -1 for what is not a known tier.
unfoldable pub tier_order : String → ℤ
tier_order = by_tier (pos 4) (pos 3) (pos 2) (pos 1) (negsuc 0)

-- `p < 0 || c < 0`
abbrev undefined : ℤ → ℤ → Bool
undefined p c = ltb_ℤ p (pos 0) || ltb_ℤ c (pos 0)

unfoldable pub is_regression : String → String → Bool
unfolding tier_order
is_regression previous current =
    let p = tier_order previous in
    let c = tier_order current in if undefined p c then false else ltb_ℤ c p

unfoldable pub is_change : String → String → Bool
unfolding tier_order
is_change previous current =
    let p = tier_order previous in
    let c = tier_order current in if undefined p c then false else not (leb_ℤ p c && leb_ℤ c p)

unfoldable pub rule_matches_change : String → String → String → Bool
unfolding is_regression is_change
rule_matches_change kind previous current =
    if str_eq kind "tier_regression"
    then is_regression previous current
    else if str_eq kind "tier_change"
    then is_change previous current
    else false

-- `alertIsPromotion` of the collector, with its own table `order`.
unfoldable pub alert_is_promotion : String → String → Bool
alert_is_promotion previous current =
    let p = by_tier (pos 4) (pos 3) (pos 2) (pos 1) (negsuc 0) previous in
    let c = by_tier (pos 4) (pos 3) (pos 2) (pos 1) (negsuc 0) current in
    if undefined p c then false else ltb_ℤ p c

-- `classificationRank` and `tierRank`: 0 for what is not a known tier.
unfoldable pub classification_rank : String → ℕ
classification_rank = by_tier 4 3 2 1 0

unfoldable pub tier_rank : String → ℕ
tier_rank = by_tier 4 3 2 1 0

-- The map `rank` of `WorstOf`.
unfoldable pub rank : String → Option ℕ
rank = by_tier (some 4) (some 3) (some 2) (some 1) none

-- A known tier.
abbrev pub is_tier : String → Bool
is_tier = by_tier true true true true false
