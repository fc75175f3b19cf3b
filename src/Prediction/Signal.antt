-- ===== src/Prediction/Signal.antt =====
-- backend/internal/prediction/trend.go: when a prediction speaks.
use mathlib.Core.Path.{subst}
use dora_metrics_app.Base.{
  ℕ, ◌≡◌, ◌⊎◌, is_some, true, ◌≤◌, String, false, not, ◌&&◌, some, List, [], ◌∷◌, arith, ltb,
  length, keep, count, length-keep, Bool-cases, map, sym, inl, inr, str_eq, if◌then◌else◌,
}
use dora_metrics_app.Float64.{Float64}
use dora_metrics_app.Tier.{is_tier}
use dora_metrics_app.Prediction.Fit.{linear_regression}
use dora_metrics_app.Prediction.Trend.{
  Sample, Prediction, predict, predict_valid, too_few, from_line, last_of, point,
}

module _ {ℓ} {F : Type ℓ} ⦃f : Float64 F⦄ where
  abbrev pub Quiet : Prediction F → Type 0
  Quiet p =
      ((is_some p.will_breach_in_days && not (str_eq p.direction "degrading")) ≡ false)
      × (((str_eq p.direction "degrading" && not (str_eq p.confidence "low")) ≡ true)
          ⊎ (p.reason ≡ some []))

  from_line-Quiet : (l : F × F × F) (p : F × F) (t : String) (n : ℕ) → Quiet (from_line l p t n)
  from_line-Quiet l p t n = (ground arith, ground arith)

module _ {ℓ} (F : Type ℓ) ⦃f : Float64 F⦄ where
  predict_valid-Quiet : (s : List Sample) → 6 ≤ length s → Quiet {F = F} (predict_valid s)
  predict_valid-Quiet [] h = absurd (ground (arith, h))
  predict_valid-Quiet (s ∷ rest) h =
      let last = last_of s rest in
      let line : Prediction F =
        from_line (linear_regression (map (point s.t) (s ∷ rest))) (point s.t last) last.tier
          (length (s ∷ rest)) in
      elim (Bool-cases (ltb (length (s ∷ rest)) 6)) [
        | inl e ↦ absurd (ground (arith, h, e))
        | inr e ↦
            subst (λ b. Quiet {F = F} (if b then too_few (length (s ∷ rest)) else line)) (sym e)
              (from_line-Quiet {F = F} (linear_regression (map (point s.t) (s ∷ rest)))
                (point s.t last) last.tier (length (s ∷ rest)))
      ]

  -- From six samples of known tiers on, a prediction that is not "degrading" has no day of a breach,
  -- and one that is not "degrading" or has low confidence has no reason.
  pub predict-Quiet :
      (samples : List Sample)
      → 6 ≤ count (λ s. is_tier s.tier) samples
      → Quiet {F = F} (predict samples)
  unfolding predict
  predict-Quiet samples h =
      predict_valid-Quiet (keep (λ s. is_tier s.tier) samples)
        (omega (arith, length-keep (λ s. is_tier s.tier) samples))
