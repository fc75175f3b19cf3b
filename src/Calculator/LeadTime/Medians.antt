-- ===== src/Calculator/LeadTime/Medians.antt =====
-- The medians of the parts of many lead times.
use dora_metrics_app.Base.{◌≡◌, refl, Option, none, some, List, [], ◌∷◌, All}
use dora_metrics_app.Base.Int.{ℤ, IsHalf}
use dora_metrics_app.Calculator.Median.{median_int64}
use dora_metrics_app.Calculator.Median.Halves.{Halves, median_int64-Halves}
use dora_metrics_app.Calculator.LeadTime.{LeadTimeBreakdown, gather, aggregate_lead_time}

-- What a median of a sample has to be: nil if the sample is empty, and else a number with half of the
-- sample on each side.
abbrev pub IsMedian : List ℤ → Option ℤ → Type 0
IsMedian [] o = o ≡ none
IsMedian (x ∷ xs) o = (m : ℤ) × (o ≡ some m) × Halves (x ∷ xs) m

median_int64-IsMedian : (xs : List ℤ) → All IsHalf xs → IsMedian xs (median_int64 xs)
median_int64-IsMedian [] fits = unfold median_int64 in refl
median_int64-IsMedian (x ∷ xs) fits = let (m, e, _, h) = median_int64-Halves x xs fits in (m, e, h)

-- The seconds that the records hold of one field are within half of the range of int64.
abbrev pub Fits : (LeadTimeBreakdown → Option ℤ) → List LeadTimeBreakdown → Type 0
Fits field mrs = All IsHalf (gather field mrs)

-- Each of the four medians is the median of the values that are there, taken on its own: nil exactly
-- if no merge request has the part, and a missing part of one says nothing of the others. The
-- seconds are within half of the range of int64.
pub aggregate_lead_time-IsMedian :
    (mrs : List LeadTimeBreakdown)
    → Fits (λ m. m.pickup_seconds) mrs
    → Fits (λ m. m.review_seconds) mrs
    → Fits (λ m. m.deploy_lag_seconds) mrs
    → Fits (λ m. m.total_lead_seconds) mrs
    → let agg = aggregate_lead_time mrs in
      IsMedian (gather (λ m. m.pickup_seconds) mrs) agg.pickup_median_seconds
      × IsMedian (gather (λ m. m.review_seconds) mrs) agg.review_median_seconds
      × IsMedian (gather (λ m. m.deploy_lag_seconds) mrs) agg.deploy_lag_median_seconds
      × IsMedian (gather (λ m. m.total_lead_seconds) mrs) agg.total_lead_median_seconds
unfolding aggregate_lead_time
aggregate_lead_time-IsMedian mrs a b c d = (
  median_int64-IsMedian _ a,
  median_int64-IsMedian _ b,
  median_int64-IsMedian _ c,
  median_int64-IsMedian _ d,
)
