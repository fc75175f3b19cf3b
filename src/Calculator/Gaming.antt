-- ===== src/Calculator/Gaming.antt =====
-- backend/internal/calculator/gaming.go: how many deployments came from trivial merge requests. The
-- percentage, a float64 in the source, is kept as the exact fraction 100 * trivial / total.
pub mod Flag
mod Tests
use mathlib.Core.List.{filter_map}
use dora_metrics_app.Base.{
  ℕ, zero, suc, ◌+◌, ◌*◌, ◌/◌, ◌%◌, Bool, true, false, Option, none, some, List, [], ◌∷◌, ◌++◌,
  length, count, ltb, leb, if◌then◌else◌,
}
use dora_metrics_app.Base.Int.{ℤ, pos, leb_ℤ, ◌+ℤ◌, wrap64}
use dora_metrics_app.Base.Text.{codes}
use dora_metrics_app.Calculator.Median.{median_of_ints}
use dora_metrics_app.Calculator.Digits.{itoa}

abbrev pub trivial_mr_threshold : ℕ
trivial_mr_threshold = 5

abbrev pub gaming_threshold_percent : ℕ
gaming_threshold_percent = 50

pub record MrSize : Type 0 where
  pub additions : ℤ
  pub deletions : ℤ
  pub lines_unknown : Bool

unfoldable pub total : MrSize → ℤ
unfolding ◌+ℤ◌ wrap64
total m = if m.lines_unknown then pos 0 else wrap64 (m.additions +ℤ m.deletions)

-- `trivial_percent` is the numerator of the percentage, over `sample_size`.
pub record GamingReport : Type 0 where
  pub sample_size : ℕ
  pub trivial_count : ℕ
  pub trivial_percent : ℕ
  pub median_mr_size : Option ℤ
  pub gaming_flag : Bool
  pub reason : Option (List ℕ)

-- The loop that gathers `known`.
unfoldable pub known : List MrSize → List ℤ
unfolding total
known [] = []
known (m ∷ mrs) = let rest = known mrs in if m.lines_unknown then rest else total m ∷ rest

abbrev pub is_trivial : ℤ → Bool
is_trivial t = leb_ℤ t (pos trivial_mr_threshold)

-- `if frac >= 10 { whole++; frac = 0 }`
abbrev pub carry : ℕ → ℕ → ℕ × ℕ
carry whole frac = if leb 10 frac then (whole + 1, 0) else (whole, frac)

-- `fmtPct`: one decimal of the fraction n / d, as the whole part and the digit.
unfoldable pub pct_parts : ℕ → ℕ → ℕ × ℕ
pct_parts n d = let whole = n / d in let frac = (n % d * 20 + d) / (2 * d) in carry whole frac

infixl 10 ◌<>◌
abbrev ◌<>◌ : Option (List ℕ) → Option (List ℕ) → Option (List ℕ)
some a <> some b = some (a ++ b)
_ <> _ = none

unfoldable pub fmt_pct : ℕ → ℕ → Option (List ℕ)
unfolding pct_parts itoa
fmt_pct n d =
    let (whole, frac) = pct_parts n d in itoa (pos whole) <> some (codes ".") <> itoa (pos frac)

unfoldable pub format_gaming_reason : ℕ → ℕ → ℕ → Option (List ℕ)
unfolding fmt_pct itoa
format_gaming_reason trivial total percent =
    fmt_pct percent total
    <> some (codes "% dos deploys (")
    <> itoa (pos trivial)
    <> some (codes "/")
    <> itoa (pos total)
    <> some (codes ") vieram de MRs triviais (<=")
    <> itoa (pos trivial_mr_threshold)
    <> some (codes " linhas). Considere revisar se esses MRs representam mudança real.")

unfoldable pub analyze_gaming : List MrSize → GamingReport
unfolding known median_of_ints format_gaming_reason
analyze_gaming mrs =
    let sizes = known mrs in
    let n = length sizes in
    let trivial = count is_trivial sizes in
    let percent = 100 * trivial in
    let flag = leb (gaming_threshold_percent * n) percent in
    if ltb n 4
    then record {
      sample_size = n;
      trivial_count = 0;
      trivial_percent = 0;
      median_mr_size = some (pos 0);
      gaming_flag = false;
      reason = some [];
    }
    else record {
      sample_size = n;
      trivial_count = trivial;
      trivial_percent = percent;
      median_mr_size = median_of_ints sizes;
      gaming_flag = flag;
      reason = if flag then format_gaming_reason trivial n percent else some [];
    }
