-- ===== src/Prediction/Tests.antt =====
-- A falling project: twelve weekly samples, and one that the prediction leaves out.
use dora_metrics_app.Base.{ℕ, ◌≡◌, refl, ◌*◌, String, some, List, [], ◌∷◌}
use dora_metrics_app.Base.Int.{ℤ, pos}
use dora_metrics_app.Base.Text.{codes}
use dora_metrics_app.Float64.Fixed.{Fixed, fixed_float64}
use dora_metrics_app.Prediction.Trend.{Sample, Prediction, predict}

abbrev at_week : ℕ → ℤ
at_week n = pos (n * 604_800_000_000)

abbrev sample : ℕ → String → Sample
sample n tier = record { t = at_week n; tier = tier }

abbrev falling : List Sample
falling =
    sample 0 "elite"
    ∷ sample 1 "elite"
    ∷ sample 2 "elite"
    ∷ sample 3 "insufficient_data"
    ∷ sample 4 "high"
    ∷ sample 5 "high"
    ∷ sample 6 "high"
    ∷ sample 7 "medium"
    ∷ sample 8 "medium"
    ∷ sample 9 "medium"
    ∷ sample 10 "medium"
    ∷ sample 11 "medium"
    ∷ []

abbrev prediction : Prediction Fixed
prediction = predict falling

falling_direction : prediction.direction ≡ "degrading"
unfolding predict fixed_float64
falling_direction = refl

falling_confidence : prediction.confidence ≡ "high"
unfolding predict fixed_float64
falling_confidence = refl

falling_breach : prediction.will_breach_in_days ≡ some (pos 16)
unfolding predict fixed_float64
falling_breach = refl

abbrev reason_text : String
reason_text =
    "tier vem caindo a 0.22 ranks/semana ao longo de 11 amostras (R²=0.90); projeção: rebaixa em ~16 dias se continuar"

falling_reason : prediction.reason ≡ some (codes reason_text)
unfolding predict fixed_float64
falling_reason = refl

line : List (Fixed × Fixed)
line = (some (pos 0), some (pos 3_000_000)) ∷ (some (pos 1_000_000), some (pos 2_000_000)) ∷ []
