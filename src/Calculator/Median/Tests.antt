-- ===== src/Calculator/Median/Tests.antt =====
-- Runs of the median, and its theorem at a sample.
use dora_metrics_app.Base.{◌≡◌, refl, none, some, List, [], ◌∷◌, arith}
use dora_metrics_app.Base.Int.{ℤ, pos, negsuc}
use dora_metrics_app.Calculator.Median.{median_int64, median_of_ints}
use dora_metrics_app.Calculator.Median.Halves.{Halves, median_int64-Halves}

abbrev sample : List ℤ
sample = pos 9 ∷ pos 2 ∷ negsuc 4 ∷ pos 5 ∷ []

runs :
    (median_int64 sample ≡ some (pos 3))
    × (median_int64 [] ≡ none)
    × (median_of_ints (pos 7 ∷ pos 1 ∷ pos 4 ∷ []) ≡ some (pos 4))
unfolding median_int64 median_of_ints
runs = (refl, refl, refl)

median_int64-Halves_example :
    (m : ℤ) × (median_int64 sample ≡ some m) × (median_of_ints sample ≡ some m) × Halves sample m
median_int64-Halves_example =
    median_int64-Halves (pos 9) (pos 2 ∷ negsuc 4 ∷ pos 5 ∷ []) (omega arith)
