-- ===== src/Calculator/Gaming/Tests.antt =====
-- Runs of the report.
use dora_metrics_app.Base.{ℕ, ◌≡◌, refl, true, false, some, List, [], ◌∷◌}
use dora_metrics_app.Base.Int.{pos}
use dora_metrics_app.Base.Text.{codes}
use dora_metrics_app.Calculator.Gaming.{MrSize, analyze_gaming, fmt_pct}

abbrev lines : ℕ → MrSize
lines n = record { additions = pos n; deletions = pos 1; lines_unknown = false }

abbrev two_of_four : List MrSize
two_of_four =
    lines 1 ∷ lines 40 ∷ lines 4 ∷ lines 9 ∷ record (lines 0) { lines_unknown = true } ∷ []

flagged : (analyze_gaming two_of_four).gaming_flag ≡ true
unfolding analyze_gaming
flagged = refl

rounds_up : fmt_pct 200 3 ≡ some (codes "66.7")
unfolding fmt_pct
rounds_up = refl
