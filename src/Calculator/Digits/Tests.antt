-- ===== src/Calculator/Digits/Tests.antt =====
-- Runs of `itoa`.
use dora_metrics_app.Base.{ℕ, ◌≡◌, ◌≤◌, refl, some, List, arith, length}
use dora_metrics_app.Base.Int.{pos, negsuc}
use dora_metrics_app.Base.Text.{codes}
use dora_metrics_app.Calculator.Digits.{itoa}
use dora_metrics_app.Calculator.Digits.RoundTrip.{read, itoa_round_trip}

runs :
    (itoa (pos 0) ≡ some (codes "0"))
    × (itoa (pos 9_223_372_036_854_775_807) ≡ some (codes "9223372036854775807"))
    × (itoa (negsuc 41) ≡ some (codes "-42"))
unfolding itoa
runs = (refl, refl, refl)

-- The least int64 is its own negation, and no digit of it is written.
least_int64 : itoa (negsuc 9_223_372_036_854_775_807) ≡ some (codes "-")
unfolding itoa
least_int64 = refl

itoa_round_trip_example :
    (s : List ℕ) × (itoa (negsuc 41) ≡ some s) × (read s ≡ negsuc 41) × (length s ≤ 20)
itoa_round_trip_example =
    itoa_round_trip (negsuc 41) (λ e. absurd (ground (arith, e))) (omega arith)
