-- ===== src/Prediction/Trend.antt =====
-- `Predict` of backend/internal/prediction/trend.go: what a project's tiers foretell. An instant is a
-- number of microseconds.
use dora_metrics_app.Base.{
  ℕ, suc, ◌%◌, String, not, ◌&&◌, Option, none, some, List, [], ◌∷◌, ◌++◌, map, length, keep, ltb,
  leb, str_eq, if◌then◌else◌,
}
use dora_metrics_app.Base.Int.{ℤ, pos, negsuc, sub_ℕ, ltb_ℤ, leb_ℤ, ◌-ℤ◌, ◌+ℤ◌, quot}
use dora_metrics_app.Base.Text.{Text, codes}
use dora_metrics_app.Float64.{Float64}
use dora_metrics_app.Tier.{is_tier}
use dora_metrics_app.Calculator.Digits.{itoa}
use dora_metrics_app.Prediction.Fit.{zero_f, tier_value, rank_to_tier, linear_regression}

pub record Sample : Type 0 where
  pub t : ℤ
  pub tier : String

-- `reason` is none where `itoa` would panic.
pub record Prediction {ℓ} (F : Type ℓ) : Type ℓ where
  pub slope_per_week : F
  pub r2 : F
  pub current_tier : String
  pub projected_tier_in : String
  pub horizon_days : ℕ
  pub direction : String
  pub confidence : String
  pub will_breach_in_days : Option ℤ
  pub reason : Option Text
  pub sample_size : ℕ

abbrev pub horizon_days_default : ℕ
horizon_days_default = 30

abbrev pub min_samples_for_prediction : ℕ
min_samples_for_prediction = 6

abbrev pub max_breach_horizon_days : ℕ
max_breach_horizon_days = 180

infixl 10 ◌<>◌
abbrev ◌<>◌ : Option Text → Option Text → Option Text
some a <> some b = some (a ++ b)
_ <> _ = none

-- `fmtFloat` on a whole part and hundredths that are not negative
abbrev fmt_parts : ℤ → ℤ → Option Text
fmt_parts whole hundredths =
    let pad = if ltb_ℤ hundredths (pos 10) then some (codes "0") else some [] in
    itoa whole <> some (codes ".") <> pad <> itoa hundredths

abbrev reason_tail : Option ℤ → Option Text
reason_tail none = some []
reason_tail (some d) =
    some (codes "; projeção: rebaixa em ~") <> itoa d <> some (codes " dias se continuar")

abbrev reason_of : String → String → Option Text → Option Text
reason_of direction confidence text =
    if str_eq direction "degrading" && not (str_eq confidence "low") then text else some []

abbrev pub last_of : Sample → List Sample → Sample
last_of s [] = s
last_of s (t ∷ rest) = last_of t rest

-- `a % k` for a positive constant k, with the sign of a.
abbrev remainder : ℤ → ℕ → ℤ
remainder (pos n) k = pos (n % k)
remainder (negsuc n) k = sub_ℕ 0 (suc n % k)

module _ {ℓ} {F : Type ℓ} ⦃f : Float64 F⦄ where
  open f use {frac, of_int, le, lt, add, sub, mul, div, neg, floor, round, to_int, is_finite}

  abbrev fmt_positive : F → Option Text
  fmt_positive x =
      let whole = to_int x in
      let frac' = to_int (add (mul (sub x (of_int whole)) (of_int (pos 100))) (frac 1 2)) in
      if leb_ℤ (pos 100) frac' then fmt_parts (whole +ℤ pos 1) (pos 0) else fmt_parts whole frac'

  unfoldable pub fmt_float : F → Option Text
  unfolding itoa ◌+ℤ◌
  fmt_float x =
      if not (is_finite x)
      then some (codes "0.00")
      else if lt x zero_f
      then some (codes "-") <> fmt_positive (neg x)
      else fmt_positive x

  -- `d.Hours()` for a duration in microseconds
  unfoldable pub hours : ℤ → F
  unfolding quot
  hours d =
      add (of_int (quot d 3_600_000_000))
        (div (of_int (remainder d 3_600_000_000)) (of_int (pos 3_600_000_000)))

  abbrev pub point : ℤ → Sample → F × F
  point first s = (div (hours (s.t -ℤ first)) (of_int (pos 24)), tier_value s.tier)

  abbrev direction_of : F → String
  direction_of week =
      if lt week (neg (frac 2 100))
      then "degrading"
      else if lt (frac 2 100) week
      then "improving"
      else "stable"

  abbrev confidence_of : F → ℕ → String
  confidence_of r2 n =
      if le (frac 6 10) r2 && leb 10 n
      then "high"
      else if le (frac 3 10) r2
      then "medium"
      else "low"

  -- The days until the rank falls to the next border, from the slope and the last rank.
  abbrev days_to : F → F → F → Option ℤ
  days_to slope rank border =
      let delta = div (sub border rank) slope in
      if lt zero_f border && (lt zero_f delta && le delta (of_int (pos max_breach_horizon_days)))
      then some (round delta)
      else none

  abbrev breach : F → String → F → Option ℤ
  breach slope direction rank =
      if str_eq direction "degrading" && lt slope zero_f
      then days_to slope rank (add (floor (sub rank (frac 1 2))) (frac 1 2))
      else none

  abbrev reason_text : F → F → ℕ → Option ℤ → Option Text
  reason_text week r2 n breaches =
      some (codes "tier vem caindo a ")
      <> fmt_float (neg week)
      <> some (codes " ranks/semana ao longo de ")
      <> itoa (pos n)
      <> some (codes " amostras (R²=")
      <> fmt_float r2
      <> some (codes ")")
      <> reason_tail breaches

  -- `Predict` from the regression on: the last point, the last tier and the number of points.
  abbrev pub from_line : F × F × F → F × F → String → ℕ → Prediction F
  from_line (slope, intercept, r2) (x, y) tier n =
      let week = mul slope (of_int (pos 7)) in
      let breaches = breach slope (direction_of week) (tier_value tier) in
      record {
        slope_per_week = week;
        r2 = r2;
        current_tier = tier;
        projected_tier_in =
            rank_to_tier (add intercept (mul slope (add x (of_int (pos horizon_days_default)))));
        horizon_days = horizon_days_default;
        direction = direction_of week;
        confidence = confidence_of r2 n;
        will_breach_in_days = breaches;
        reason =
            reason_of (direction_of week) (confidence_of r2 n) (reason_text week r2 n breaches);
        sample_size = n;
      }

  abbrev pub too_few : ℕ → Prediction F
  too_few n = record {
    slope_per_week = zero_f;
    r2 = zero_f;
    current_tier = "";
    projected_tier_in = "";
    horizon_days = 0;
    direction = "";
    confidence = "";
    will_breach_in_days = none;
    reason =
        some (codes "histórico insuficiente para previsão (mínimo ")
        <> itoa (pos min_samples_for_prediction)
        <> some (codes " pontos)");
    sample_size = n;
  }

  abbrev pub predict_valid : List Sample → Prediction F
  predict_valid [] = too_few 0
  predict_valid (s ∷ rest) =
      let n = length (s ∷ rest) in
      let last = last_of s rest in
      if ltb n min_samples_for_prediction
      then too_few n
      else from_line (linear_regression (map (point s.t) (s ∷ rest))) (point s.t last) last.tier n

  unfoldable pub predict : List Sample → Prediction F
  unfolding itoa fmt_float hours tier_value rank_to_tier linear_regression ◌-ℤ◌
  predict samples = predict_valid (keep (λ s. is_tier s.tier) samples)
