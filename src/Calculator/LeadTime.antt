-- ===== src/Calculator/LeadTime.antt =====
-- backend/internal/calculator/subcomponents.go: the lead time of a merge request in parts, and their
-- medians. An instant is a number of microseconds, the resolution at which the timestamps are stored:
-- there the float64 of `Seconds()` loses nothing before it is cut to whole seconds. Instants are
-- within 292 years of one another, so `Sub` does not saturate.
pub mod Parts
pub mod Medians
mod Tests
use mathlib.Core.List.{filter_map}
use dora_metrics_app.Base.{ℕ, Option, none, some, List, [], ◌∷◌, length, if◌then◌else◌}
use dora_metrics_app.Base.Int.{ℤ, pos, ltb_ℤ, ◌-ℤ◌, quot}
use dora_metrics_app.Calculator.Median.{median_int64}

pub record MrTimestamps : Type 0 where
  pub first_commit_at : Option ℤ
  pub opened_at : Option ℤ
  pub merged_at : Option ℤ
  pub deployed_at : Option ℤ

pub record LeadTimeBreakdown : Type 0 where
  pub pickup_seconds : Option ℤ
  pub review_seconds : Option ℤ
  pub deploy_lag_seconds : Option ℤ
  pub total_lead_seconds : Option ℤ

-- `int64(end.Sub(start).Seconds())`
unfoldable pub seconds_between : ℤ → ℤ → ℤ
unfolding ◌-ℤ◌ quot
seconds_between start end_ = quot (end_ -ℤ start) 1_000_000

-- One of the four blocks of `Decompose`.
unfoldable pub part : Option ℤ → Option ℤ → Option ℤ
unfolding seconds_between
part (some start) (some end_) =
    let s = seconds_between start end_ in if ltb_ℤ s (pos 0) then none else some s
part _ _ = none

unfoldable pub decompose : MrTimestamps → LeadTimeBreakdown
unfolding part
decompose ts = record {
  pickup_seconds = part ts.first_commit_at ts.opened_at;
  review_seconds = part ts.opened_at ts.merged_at;
  deploy_lag_seconds = part ts.merged_at ts.deployed_at;
  total_lead_seconds = part ts.first_commit_at ts.deployed_at;
}

pub record LeadTimeAggregate : Type 0 where
  pub pickup_median_seconds : Option ℤ
  pub review_median_seconds : Option ℤ
  pub deploy_lag_median_seconds : Option ℤ
  pub total_lead_median_seconds : Option ℤ
  pub sample_size : ℕ

abbrev push : Option ℤ → List ℤ → List ℤ
push none xs = xs
push (some x) xs = x ∷ xs

-- The values that the loop of `AggregateLeadTime` gathers of one field.
unfoldable pub gather : (LeadTimeBreakdown → Option ℤ) → List LeadTimeBreakdown → List ℤ
gather field [] = []
gather field (m ∷ mrs) = push (field m) (gather field mrs)

unfoldable pub aggregate_lead_time : List LeadTimeBreakdown → LeadTimeAggregate
unfolding gather median_int64
aggregate_lead_time mrs = record {
  pickup_median_seconds = median_int64 (gather (λ m. m.pickup_seconds) mrs);
  review_median_seconds = median_int64 (gather (λ m. m.review_seconds) mrs);
  deploy_lag_median_seconds = median_int64 (gather (λ m. m.deploy_lag_seconds) mrs);
  total_lead_median_seconds = median_int64 (gather (λ m. m.total_lead_seconds) mrs);
  sample_size = length mrs;
}
