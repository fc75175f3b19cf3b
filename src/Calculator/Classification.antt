-- ===== src/Calculator/Classification.antt =====
-- backend/internal/calculator/classification.go: the thresholds, the classification of each metric
-- and the worst of several tiers.
pub mod Worst
pub mod Monotone
mod Tests
use mathlib.Core.List.{foldl}
use dora_metrics_app.Base.{
  ℕ, ◌*◌, String, Bool, true, false, ◌&&◌, ◌||◌, Option, none, some, List, [], ◌∷◌, str_eq,
  if◌then◌else◌,
}
use dora_metrics_app.Base.Int.{ℤ, pos, negsuc, ltb_ℤ, leb_ℤ}
use dora_metrics_app.Float64.{Float64}
use dora_metrics_app.Tier.{
  tier_elite, tier_high, tier_medium, tier_low, tier_insufficient_data, rank,
}

pub record Thresholds {ℓ} (F : Type ℓ) : Type ℓ where
  pub df_elite : F
  pub df_high : F
  pub df_medium : F
  pub lt_elite : ℤ
  pub lt_high : ℤ
  pub lt_medium : ℤ
  pub cfr_elite : F
  pub cfr_high : F
  pub cfr_medium : F
  pub mttr_elite : ℤ
  pub mttr_high : ℤ
  pub mttr_medium : ℤ

-- The fields that a JSON document gives.
pub record Overrides {ℓ} (F : Type ℓ) : Type ℓ where
  pub df_elite : Option F
  pub df_high : Option F
  pub df_medium : Option F
  pub lt_elite : Option ℤ
  pub lt_high : Option ℤ
  pub lt_medium : Option ℤ
  pub cfr_elite : Option F
  pub cfr_high : Option F
  pub cfr_medium : Option F
  pub mttr_elite : Option ℤ
  pub mttr_high : Option ℤ
  pub mttr_medium : Option ℤ

abbrev pub or_else {ℓ} : {A : Type ℓ} → Option A → A → A
or_else none d = d
or_else (some a) d = a

abbrev pub hour : ℕ
hour = 3600

abbrev pub day : ℕ
day = 24 * hour

abbrev pub week : ℕ
week = 7 * day

abbrev pub month : ℕ
month = 30 * day

module _ {ℓ} {F : Type ℓ} ⦃f : Float64 F⦄ where
  open f use {frac, le}

  unfoldable pub default_thresholds : Thresholds F
  default_thresholds = record {
    df_elite = frac 1 1;
    df_high = frac 1 7;
    df_medium = frac 1 30;
    lt_elite = pos hour;
    lt_high = pos week;
    lt_medium = pos month;
    cfr_elite = frac 5 100;
    cfr_high = frac 10 100;
    cfr_medium = frac 20 100;
    mttr_elite = pos hour;
    mttr_high = pos day;
    mttr_medium = pos week;
  }

  -- What `json.Unmarshal` does to the thresholds: a field that the document omits stays.
  unfoldable pub merge : Overrides F → Thresholds F → Thresholds F
  merge o t = record {
    df_elite = or_else o.df_elite t.df_elite;
    df_high = or_else o.df_high t.df_high;
    df_medium = or_else o.df_medium t.df_medium;
    lt_elite = or_else o.lt_elite t.lt_elite;
    lt_high = or_else o.lt_high t.lt_high;
    lt_medium = or_else o.lt_medium t.lt_medium;
    cfr_elite = or_else o.cfr_elite t.cfr_elite;
    cfr_high = or_else o.cfr_high t.cfr_high;
    cfr_medium = or_else o.cfr_medium t.cfr_medium;
    mttr_elite = or_else o.mttr_elite t.mttr_elite;
    mttr_high = or_else o.mttr_high t.mttr_high;
    mttr_medium = or_else o.mttr_medium t.mttr_medium;
  }

  -- `FromJSON` over the decoder of `encoding/json`; `none` is the error.
  unfoldable pub from_json : (String → Option (Overrides F)) → String → Option (Thresholds F)
  unfolding default_thresholds merge
  from_json decode raw =
      if str_eq raw ""
      then some default_thresholds
      else elim (decode raw) [ none ↦ none | some o ↦ some (merge o default_thresholds) ]

  unfoldable pub classify_deployment_frequency : F → Thresholds F → String
  classify_deployment_frequency per_day t =
      if le per_day (frac 0 1)
      then tier_insufficient_data
      else if le t.df_elite per_day
      then tier_elite
      else if le t.df_high per_day
      then tier_high
      else if le t.df_medium per_day
      then tier_medium
      else tier_low

  unfoldable pub classify_change_failure_rate : Option F → Thresholds F → String
  classify_change_failure_rate none t = tier_insufficient_data
  classify_change_failure_rate (some rate) t =
      if le rate t.cfr_elite
      then tier_elite
      else if le rate t.cfr_high
      then tier_high
      else if le rate t.cfr_medium
      then tier_medium
      else tier_low

module _ {ℓ} {F : Type ℓ} where
  unfoldable pub classify_lead_time : Option ℤ → Thresholds F → String
  classify_lead_time none t = tier_insufficient_data
  classify_lead_time (some median_seconds) t =
      if ltb_ℤ median_seconds t.lt_elite
      then tier_elite
      else if ltb_ℤ median_seconds t.lt_high
      then tier_high
      else if ltb_ℤ median_seconds t.lt_medium
      then tier_medium
      else tier_low

  unfoldable pub classify_mttr : Option ℤ → Thresholds F → String
  classify_mttr none t = tier_insufficient_data
  classify_mttr (some mean_seconds) t =
      if ltb_ℤ mean_seconds t.mttr_elite
      then tier_elite
      else if ltb_ℤ mean_seconds t.mttr_high
      then tier_high
      else if ltb_ℤ mean_seconds t.mttr_medium
      then tier_medium
      else tier_low

-- One round of the loop of `WorstOf`, on `worst` and `worstName`.
abbrev worst_step : ℤ × String → String → ℤ × String
worst_step (worst, worst_name) t = elim (rank t) [
  | none ↦ (worst, worst_name)
  | some r ↦
      if (leb_ℤ worst (negsuc 0) && leb_ℤ (negsuc 0) worst) || ltb_ℤ (pos r) worst
      then (pos r, t)
      else (worst, worst_name)
]

unfoldable pub worst_of : List String → String
unfolding rank
worst_of tiers = (foldl worst_step (negsuc 0, tier_insufficient_data) tiers).1
