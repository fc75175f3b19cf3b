-- ===== src/Prediction/Fit.antt =====
-- `linearRegression` of backend/internal/prediction/trend.go, and the ranks of tiers as floats.
use mathlib.Core.List.{foldl}
use dora_metrics_app.Base.{String, Bool, ◌&&◌, List, length, ltb, if◌then◌else◌}
use dora_metrics_app.Base.Int.{pos}
use dora_metrics_app.Float64.{Float64}
use dora_metrics_app.Tier.{by_tier, tier_elite, tier_high, tier_medium, tier_low}

-- The sums of the first loop of `linearRegression`.
pub record Sums {ℓ} (F : Type ℓ) : Type ℓ where
  pub x : F
  pub y : F
  pub xy : F
  pub x2 : F
  pub y2 : F

module _ {ℓ} {F : Type ℓ} ⦃f : Float64 F⦄ where
  open f use {frac, of_int, le, lt, add, sub, mul, div, neg, floor, round, to_int, is_finite}

  abbrev pub zero_f : F
  zero_f = frac 0 1

  abbrev pub eq : F → F → Bool
  eq a b = le a b && le b a

  -- `tierRankMap`, at a known tier
  unfoldable pub tier_value : String → F
  tier_value = by_tier (of_int (pos 4)) (of_int (pos 3)) (of_int (pos 2)) (of_int (pos 1)) zero_f

  unfoldable pub rank_to_tier : F → String
  rank_to_tier r =
      if le (frac 7 2) r
      then tier_elite
      else if le (frac 5 2) r
      then tier_high
      else if le (frac 3 2) r
      then tier_medium
      else tier_low

  abbrev pub add_point : Sums F → F × F → Sums F
  add_point s (x, y) = record {
    x = add s.x x;
    y = add s.y y;
    xy = add s.xy (mul x y);
    x2 = add s.x2 (mul x x);
    y2 = add s.y2 (mul y y);
  }

  abbrev pub no_sums : Sums F
  no_sums = record { x = zero_f; y = zero_f; xy = zero_f; x2 = zero_f; y2 = zero_f }

  -- One round of the second loop, on `ssr` and `sst`.
  abbrev pub add_squares : F → F → F → F × F → F × F → F × F
  add_squares slope intercept mean (ssr, sst) (x, y) =
      let pred = add intercept (mul slope x) in
      (add ssr (mul (sub pred mean) (sub pred mean)), add sst (mul (sub y mean) (sub y mean)))

  abbrev pub clamp_r2 : F → F
  clamp_r2 r2 =
      let r2' = if lt r2 zero_f then zero_f else r2 in if lt (frac 1 1) r2' then frac 1 1 else r2'

  abbrev pub r2_of : F → F × F → F
  r2_of slope (ssr, sst) =
      if eq sst zero_f then if eq slope zero_f then frac 1 1 else zero_f else clamp_r2 (div ssr sst)

  abbrev pub count_of : List (F × F) → F
  count_of points = of_int (pos (length points))

  abbrev pub sums_of : List (F × F) → Sums F
  sums_of points = foldl add_point no_sums points

  abbrev pub denom_of : List (F × F) → F
  denom_of points = let s = sums_of points in sub (mul (count_of points) s.x2) (mul s.x s.x)

  abbrev pub slope_of : List (F × F) → F
  slope_of points =
      let s = sums_of points in
      div (sub (mul (count_of points) s.xy) (mul s.x s.y)) (denom_of points)

  abbrev pub mean_y : List (F × F) → F
  mean_y points = div ((sums_of points).y) (count_of points)

  abbrev pub intercept_of : List (F × F) → F
  intercept_of points =
      let s = sums_of points in div (sub s.y (mul (slope_of points) s.x)) (count_of points)

  abbrev pub squares_of : List (F × F) → F × F
  squares_of points =
      foldl (add_squares (slope_of points) (intercept_of points) (mean_y points)) (zero_f, zero_f)
        points

  -- The slope, the intercept and R² of the points.
  unfoldable pub linear_regression : List (F × F) → F × F × F
  linear_regression points =
      if ltb (length points) 2
      then (zero_f, zero_f, zero_f)
      else if eq (denom_of points) zero_f
      then (zero_f, mean_y points, zero_f)
      else (slope_of points, intercept_of points, r2_of (slope_of points) (squares_of points))
