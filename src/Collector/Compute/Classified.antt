-- ===== src/Collector/Compute/Classified.antt =====
-- When a window is written, and its classification.
use dora_metrics_app.Base.{
  ℕ, ◌≡◌, String, Bool, true, false, not, ◌&&◌, Option, none, some, List, [], ◌∷◌, ◌<◌, is_some,
}
use dora_metrics_app.Base.Int.{ℤ, pos}
use dora_metrics_app.Base.Text.{Text}
use dora_metrics_app.Float64.{Float64}
use dora_metrics_app.Calculator.Classification.{
  Thresholds, Overrides, classify_deployment_frequency, classify_lead_time,
  classify_change_failure_rate, classify_mttr,
}
use dora_metrics_app.Calculator.Classification.Worst.{tier_of, least_rank}
use dora_metrics_app.Collector.Compute.{
  Result, when_sampled, ok, err, WindowRows, MetricWindow, Sampled, tier_before, thresholds_of,
  frequency,
}

module _ {ℓ κ} {A : Type ℓ} where
  abbrev pub OnOk : (A → Type κ) → Result A → Type κ
  OnOk P (ok a) = P a
  OnOk P (err e) = Unit

module _ {ℓ} {A : Type ℓ} where
  abbrev pub is_ok : Result A → Bool
  is_ok (ok a) = true
  is_ok (err e) = false

-- The value of a sample, and nothing where it is empty.
abbrev pub Measures {ℓ κ} : {F : Type ℓ} {V : Type κ} → (F → V) → Sampled F → Option V → Type κ
Measures g (size, x) v = (size ≡ 0 → v ≡ none) × (0 < size → v ≡ some (g x))

-- The four metrics, as they are classified.
pub record Metrics {ℓ} (F : Type ℓ) : Type ℓ where
  pub deployment_frequency : F
  pub lead_time_median_s : Option ℤ
  pub change_failure_rate : Option F
  pub mttr_mean_s : Option ℤ

module _ {ℓ κ} {F : Type ℓ} ⦃f : Float64 F⦄ {N : Type κ} (print : ℕ → F → Text)
    (scan : Text → Option N) (decode : String → Option (Overrides F)) (window_days : ℕ) where
  open f use {of_int, to_int, div}

  -- The metrics are those that the queries of the task give.
  pub record IsMeasured (rows : WindowRows F) (m : Metrics F) (size : ℕ) : Type ℓ where
    pub lead : Sampled F
    pub rate : Sampled F
    pub repair : Sampled F
    pub counted : rows.deployments ≡ some size
    pub has_lead : rows.lead_time ≡ some lead
    pub has_rate : rows.change_failure_rate ≡ some rate
    pub has_repair : rows.mttr ≡ some repair
    pub frequency : m.deployment_frequency ≡ div (of_int (pos size)) (of_int (pos window_days))
    pub lead_time : Measures to_int lead m.lead_time_median_s
    pub failure_rate : Measures (λ v. v) rate m.change_failure_rate
    pub mttr : Measures to_int repair m.mttr_mean_s

  -- The row holds the metrics, the two floats as what `scan` reads in their six decimals.
  pub record IsStored (w : MetricWindow N) (m : Metrics F) (size : ℕ) : Type (ℓ ⊔ κ) where
    pub frequency : scan (print 6 m.deployment_frequency) ≡ some w.deployment_frequency
    pub lead_time : w.lead_time_median_s ≡ m.lead_time_median_s
    pub no_rate : m.change_failure_rate ≡ none → w.change_failure_rate ≡ none
    pub rate : (x : F) → m.change_failure_rate ≡ some x → w.change_failure_rate ≡ scan (print 6 x)
    pub mttr : w.mttr_mean_s ≡ m.mttr_mean_s
    pub sample_size : w.sample_size ≡ size

  abbrev pub tiers_in : Thresholds F → Metrics F → List String
  tiers_in t m =
      classify_deployment_frequency m.deployment_frequency t
      ∷ classify_lead_time m.lead_time_median_s t
      ∷ classify_change_failure_rate m.change_failure_rate t
      ∷ classify_mttr m.mttr_mean_s t
      ∷ []

  abbrev pub IsClassified : WindowRows F → MetricWindow N × String × String → Type (ℓ ⊔ κ)
  IsClassified rows (w, before, now) =
      (m : Metrics F) × (size : ℕ) × IsMeasured rows m size
      × IsStored w m size
      × (now ≡ tier_of (least_rank (tiers_in (thresholds_of decode rows.threshold_config) m)))
      × (w.classification ≡ some now)
      × (before ≡ tier_before rows.previous)

  abbrev pub df_fits : Option ℕ → Bool
  df_fits none = false
  df_fits (some count) =
      is_some (scan (print 6 (div (of_int (pos count)) (of_int (pos window_days)))))

  abbrev pub are_answered : WindowRows F → Bool
  are_answered rows =
      is_some rows.lead_time
      && (is_some rows.change_failure_rate && (is_some rows.mttr && not rows.upsert_fails))

  abbrev metrics_of : ℕ → Sampled F → Sampled F → Sampled F → Metrics F
  metrics_of count lead cfr mttr = record {
    deployment_frequency = frequency count window_days;
    lead_time_median_s = when_sampled to_int lead;
    change_failure_rate = when_sampled (λ v. v) cfr;
    mttr_mean_s = when_sampled to_int mttr;
  }
