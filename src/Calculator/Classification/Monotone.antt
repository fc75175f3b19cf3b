-- ===== src/Calculator/Classification/Monotone.antt =====
-- How the tiers of backend/internal/calculator/classification.go move with the metrics.
use dora_metrics_app.Base.{◌≡◌, refl, Bool, true, false, some, arith, if◌then◌else◌}
use dora_metrics_app.Base.Int.{ℤ, pos, negsuc, ltb_ℤ, ◌≤ℤ◌}
use dora_metrics_app.Float64.{Float64, IsOrdered, ◌≼◌}
use dora_metrics_app.Tier.{
  tier_order, tier_elite, tier_high, tier_medium, tier_low, tier_insufficient_data,
}
use dora_metrics_app.Calculator.Classification.{
  Thresholds, classify_deployment_frequency, classify_lead_time, classify_change_failure_rate,
  classify_mttr,
}

abbrev ladder : Bool → Bool → Bool → ℤ
ladder b c d = if b then pos 4 else if c then pos 3 else if d then pos 2 else pos 1

order-ladder :
    (b c d : Bool)
    → tier_order
        (if b then tier_elite else if c then tier_high else if d then tier_medium else tier_low)
      ≡ ladder b c d
unfolding tier_order
order-ladder true c d = refl
order-ladder false true d = refl
order-ladder false false true = refl
order-ladder false false false = refl

ladder_mono :
    (e h m a b : ℤ)
    → a ≤ℤ b
    → ladder (ltb_ℤ b e) (ltb_ℤ b h) (ltb_ℤ b m) ≤ℤ ladder (ltb_ℤ a e) (ltb_ℤ a h) (ltb_ℤ a m)
ladder_mono e h m a b le = ground arith

module _ {ℓ} {F : Type ℓ} where
  order-lead_time :
      (t : Thresholds F) (v : ℤ)
      → tier_order (classify_lead_time (some v) t)
        ≡ ladder (ltb_ℤ v t.lt_elite) (ltb_ℤ v t.lt_high) (ltb_ℤ v t.lt_medium)
  unfolding classify_lead_time
  order-lead_time t v = order-ladder _ _ _

  order-mttr :
      (t : Thresholds F) (v : ℤ)
      → tier_order (classify_mttr (some v) t)
        ≡ ladder (ltb_ℤ v t.mttr_elite) (ltb_ℤ v t.mttr_high) (ltb_ℤ v t.mttr_medium)
  unfolding classify_mttr
  order-mttr t v = order-ladder _ _ _

module _ {ℓ} {F : Type ℓ} ⦃f : Float64 F⦄ where
  order-frequency :
      (t : Thresholds F) (v : F)
      → tier_order (classify_deployment_frequency v t) ≡ (
          if f.le v (f.frac 0 1)
          then negsuc 0
          else ladder (f.le t.df_elite v) (f.le t.df_high v) (f.le t.df_medium v))
  unfolding classify_deployment_frequency
  order-frequency t v =
      elim (f.le v (f.frac 0 1))
        as (λ b.
          tier_order (
            if b
            then tier_insufficient_data
            else if f.le t.df_elite v
            then tier_elite
            else if f.le t.df_high v
            then tier_high
            else if f.le t.df_medium v
            then tier_medium
            else tier_low)
          ≡ (if b
              then negsuc 0
              else ladder (f.le t.df_elite v) (f.le t.df_high v) (f.le t.df_medium v))) [
                | true ↦ unfold tier_order in refl
                | false ↦ order-ladder _ _ _
              ]

  order-failure_rate :
      (t : Thresholds F) (v : F)
      → tier_order (classify_change_failure_rate (some v) t)
        ≡ ladder (f.le v t.cfr_elite) (f.le v t.cfr_high) (f.le v t.cfr_medium)
  unfolding classify_change_failure_rate
  order-failure_rate t v = order-ladder _ _ _

-- A shorter lead time, and a shorter time to restore, never has a worse tier: for any thresholds, in
-- whatever order they stand.
pub shorter_is_not_worse {ℓ} :
    {F : Type ℓ} (t : Thresholds F) (a b : ℤ)
    → a ≤ℤ b
    → (tier_order (classify_lead_time (some b) t) ≤ℤ tier_order (classify_lead_time (some a) t))
      × (tier_order (classify_mttr (some b) t) ≤ℤ tier_order (classify_mttr (some a) t))
shorter_is_not_worse t a b h = (
  rw (order-lead_time t a, order-lead_time t b)
      (ladder_mono t.lt_elite t.lt_high t.lt_medium a b h),
  rw (order-mttr t a, order-mttr t b) (ladder_mono t.mttr_elite t.mttr_high t.mttr_medium a b h),
)

-- More deployments a day never have a worse tier, for any thresholds; no deployments count as no
-- data, which is below every tier.
pub more_deployments_not_worse {ℓ} :
    {F : Type ℓ} ⦃f : Float64 F⦄ (laws : IsOrdered F) (t : Thresholds F) (a b : F)
    → a ≼ b
    → tier_order (classify_deployment_frequency a t)
      ≤ℤ tier_order (classify_deployment_frequency b t)
more_deployments_not_worse ⦃f⦄ laws t a b h = ground (
  arith,
  order-frequency t a,
  order-frequency t b,
  laws.le_trans a b (f.frac 0 1) h,
  laws.le_trans t.df_elite a b,
  laws.le_trans t.df_high a b,
  laws.le_trans t.df_medium a b,
)

-- A lower change failure rate never has a worse tier, for any thresholds.
pub fewer_failures_not_worse {ℓ} :
    {F : Type ℓ} ⦃f : Float64 F⦄ (laws : IsOrdered F) (t : Thresholds F) (a b : F)
    → a ≼ b
    → tier_order (classify_change_failure_rate (some b) t)
      ≤ℤ tier_order (classify_change_failure_rate (some a) t)
fewer_failures_not_worse ⦃f⦄ laws t a b h = ground (
  arith,
  order-failure_rate t a,
  order-failure_rate t b,
  laws.le_trans a b t.cfr_elite h,
  laws.le_trans a b t.cfr_high h,
  laws.le_trans a b t.cfr_medium h,
)
