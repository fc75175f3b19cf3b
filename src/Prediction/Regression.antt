-- ===== src/Prediction/Regression.antt =====
-- backend/internal/prediction/trend.go: the range of R² and the ranks of the tiers.
use dora_metrics_app.Base.{
  ℕ, ◌≡◌, ◌<◌, String, Bool, true, false, List, arith, leb, ltb, length, eq_iff, if◌then◌else◌, ◌+◌,
  ◌*◌,
}
use dora_metrics_app.Base.Int.{pos}
use dora_metrics_app.Float64.{Float64, IsOrdered, HasHalves, ◌≼◌}
use dora_metrics_app.Tier.{is_tier}
use dora_metrics_app.Prediction.Fit.{
  zero_f, tier_value, rank_to_tier, r2_of, clamp_r2, eq, linear_regression, slope_of, intercept_of,
  squares_of, mean_y, denom_of,
}

abbrev pub InUnit {ℓ} : {F : Type ℓ} ⦃f : Float64 F⦄ → F → Type 0
InUnit ⦃f⦄ r = (f.frac 0 1 ≼ r) × (r ≼ f.frac 1 1)

module _ {ℓ} {F : Type ℓ} ⦃f : Float64 F⦄ (o : IsOrdered F) (h : f.frac 0 1 ≼ f.frac 1 1) where
  open f use {frac, lt, le, div}
  open o use {refl_of_le, le_total, lt-eq-not-le, lt_irrefl_nan}

  clamp_r2_bounds : (r : F) → clamp_r2 r ≼ clamp_r2 r → InUnit (clamp_r2 r)
  clamp_r2_bounds r hr =
      let (z, u) = refl_of_le (frac 0 1) (frac 1 1) h in
      ground (
        arith,
        z,
        u,
        lt_irrefl_nan r (frac 0 1),
        lt-eq-not-le (frac 1 1) (frac 0 1) u z,
        lt-eq-not-le r (frac 0 1),
        lt-eq-not-le (frac 1 1) r,
      )

  r2_of_bounds : (slope : F) (s : F × F) → r2_of slope s ≼ r2_of slope s → InUnit (r2_of slope s)
  r2_of_bounds slope s hr =
      ground (arith, refl_of_le (frac 0 1) (frac 1 1) h, clamp_r2_bounds (div s.0 s.1))

  Bounded : F × F × F → Type 0
  Bounded t = t.2 ≼ t.2 → InUnit t.2

  zero-InUnit : InUnit (frac 0 1)
  zero-InUnit = ((refl_of_le (frac 0 1) (frac 1 1) h).0, h)

  zeros-Bounded : (a b : F) → Bounded (a, b, frac 0 1)
  unfolding Bounded
  zeros-Bounded a b = λ _. zero-InUnit

  r2_of-Bounded : (slope intercept : F) (s : F × F) → Bounded (slope, intercept, r2_of slope s)
  unfolding Bounded
  r2_of-Bounded slope intercept s = r2_of_bounds slope s

  if-Bounded : (b : Bool) (x y : F × F × F) → Bounded x → Bounded y → Bounded (if b then x else y)
  if-Bounded true x y p q = p
  if-Bounded false x y p q = q

  linear_regression-Bounded : (points : List (F × F)) → Bounded (linear_regression points)
  unfolding linear_regression
  linear_regression-Bounded points =
      let slope = slope_of points in
      let intercept = intercept_of points in
      let fit : F × F × F = (slope, intercept, r2_of slope (squares_of points)) in
      let flat : F × F × F = (zero_f, mean_y points, zero_f) in
      if-Bounded (ltb (length points) 2) (zero_f, zero_f, zero_f)
        (if eq (denom_of points) zero_f then flat else fit) (zeros-Bounded zero_f zero_f)
        (if-Bounded (eq (denom_of points) zero_f) flat fit (zeros-Bounded zero_f (mean_y points))
          (r2_of-Bounded slope intercept (squares_of points)))

  -- R², where it is a number, is between 0 and 1. It needs the order of the floats, and that 0 is at
  -- most 1.
  pub linear_regression_r2 :
      (points : List (F × F))
      → (linear_regression points).2 ≼ (linear_regression points).2
      → InUnit (linear_regression points).2
  unfolding Bounded
  linear_regression_r2 points hr = linear_regression-Bounded points hr

-- The tier of the rank of a known tier is the tier itself, where the floats have the halves.
pub rank_to_tier-tier_value {ℓ} :
    {F : Type ℓ} ⦃f : Float64 F⦄
    → HasHalves F
    → (t : String) → is_tier t ≡ true
    → rank_to_tier ⦃f = f⦄ (tier_value t) ≡ t
unfolding rank_to_tier tier_value
rank_to_tier-tier_value {F = F} ⦃f⦄ h t ht =
    let at : (k n : ℕ)
        → k < 10
        → n < 10
        → f.le (f.frac (2 * k + 1) 2) (f.of_int (pos n)) ≡ leb (2 * k + 1) (2 * n) =
      h.le_half in
    ground (
      arith,
      at 3 4 (omega arith) (omega arith),
      at 3 3 (omega arith) (omega arith),
      at 3 2 (omega arith) (omega arith),
      at 3 1 (omega arith) (omega arith),
      at 2 3 (omega arith) (omega arith),
      at 2 2 (omega arith) (omega arith),
      at 2 1 (omega arith) (omega arith),
      at 1 2 (omega arith) (omega arith),
      at 1 1 (omega arith) (omega arith),
      eq_iff t "elite",
      eq_iff t "high",
      eq_iff t "medium",
      eq_iff t "low",
    )
