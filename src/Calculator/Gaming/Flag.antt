-- ===== src/Calculator/Gaming/Flag.antt =====
-- When gaming is reported, and how its percentage is rounded.
use mathlib.Core.Path.{subst}
use native.Mathlib.Nat.{mul-le-mul, le_refl, div-add-mod}
use dora_metrics_app.Base.{
  ℕ, ◌+◌, ◌*◌, ◌/◌, ◌%◌, ◌≤◌, ◌<◌, ◌≡◌, refl, inl, inr, Bool-cases, ◌↔◌, Bool, true, false, not,
  ◌&&◌, List, [], ◌∷◌, arith, length, count, ltb, leb, if◌then◌else◌,
}
use dora_metrics_app.Calculator.Gaming.{
  MrSize, known, total, is_trivial, analyze_gaming, pct_parts, carry,
}

abbrev pub is_known : MrSize → Bool
is_known m = not m.lines_unknown

abbrev pub is_known_trivial : MrSize → Bool
is_known_trivial m = not m.lines_unknown && is_trivial (total m)

length-known : (mrs : List MrSize) → length (known mrs) ≡ count is_known mrs
unfolding known
length-known [] = refl
length-known (m ∷ mrs) = ground (arith, length-known mrs)

count-known : (mrs : List MrSize) → count is_trivial (known mrs) ≡ count is_known_trivial mrs
unfolding known
count-known [] = refl
count-known (m ∷ mrs) = grind (arith, count-known mrs)

-- The test on the sample size and the percentage.
abbrev flag_of : ℕ → ℕ → Bool
flag_of n trivial = if ltb n 4 then false else leb (50 * n) (100 * trivial)

flag_of_lem : (n trivial : ℕ) → (flag_of n trivial ≡ true) ↔ ((4 ≤ n) × (n ≤ 2 * trivial))
flag_of_lem n trivial = (λ h. ground arith, λ h. ground arith)

gaming_flag-eq :
    (mrs : List MrSize)
    → (analyze_gaming mrs).gaming_flag ≡ flag_of (length (known mrs)) (count is_trivial (known mrs))
unfolding analyze_gaming
gaming_flag-eq mrs = elim (Bool-cases (ltb (length (known mrs)) 4)) [
  | inl e ↦ rw e refl
  | inr e ↦ rw e refl
]

-- Gaming is flagged exactly when at least four merge requests have a known size and at least half of
-- those have at most five lines; merge requests of unknown size count for nothing.
pub gaming_flag_iff :
    (mrs : List MrSize)
    → ((analyze_gaming mrs).gaming_flag ≡ true)
      ↔ ((4 ≤ count is_known mrs) × (count is_known mrs ≤ 2 * count is_known_trivial mrs))
gaming_flag_iff mrs =
    rw (gaming_flag-eq mrs, length-known mrs, count-known mrs)
      (flag_of_lem (count is_known mrs) (count is_known_trivial mrs))

-- The rounded digit is at most 10.
digit-le : (d r f : ℕ) → r < d → d * f * 2 ≤ r * 20 + d → f ≤ 10
digit-le d r f h k = elim (Bool-cases (leb f 10)) [
  | inl e ↦ ground arith
  | inr e ↦ let big : 11 ≤ f = ground arith in absurd (omega (arith, mul-le-mul (le_refl d) big))
]

-- `whole.frac` is the tenth nearest to n / d, and the higher one at a tie.
abbrev pub IsNearestTenth : ℕ → ℕ → ℕ × ℕ → Type 0
IsNearestTenth n d (whole, frac) =
    (frac < 10)
    × ((whole * 10 + frac) * (2 * d) ≤ n * 20 + d)
    × (n * 20 + d < (whole * 10 + frac) * (2 * d) + 2 * d)

rounded :
    (d q r f : ℕ)
    → r < d
    → d * f * 2 ≤ r * 20 + d
    → r * 20 + d < d * f * 2 + d * 2
    → IsNearestTenth (d * q + r) d (carry q f)
rounded d q r f h low high = elim (Bool-cases (leb 10 f)) [
  | inl e ↦
      let ten : f ≡ 10 = ground (arith, digit-le d r f h low) in
      let low' : d * 10 * 2 ≤ r * 20 + d = subst (λ x. d * x * 2 ≤ r * 20 + d) ten low in
      let high' : r * 20 + d < d * 10 * 2 + d * 2 =
        subst (λ x. r * 20 + d < d * x * 2 + d * 2) ten high in
      rw e (omega arith, omega arith, omega arith)
  | inr e ↦ let small : f < 10 = ground arith in rw e (small, omega arith, omega arith)
]

-- The percentage of the report is printed as the tenth nearest to the fraction n / d, a tie going
-- up, and its last part is one digit.
pub pct_parts_nearest : (n d : ℕ) → 0 < d → IsNearestTenth n d (pct_parts n d)
unfolding pct_parts
pct_parts_nearest n d h =
    let f : ℕ = (n % d * 20 + d) / (2 * d) in
    let low : d * f * 2 ≤ n % d * 20 + d = omega arith in
    let high : n % d * 20 + d < d * f * 2 + d * 2 = omega arith in
    subst (λ m. IsNearestTenth m d (carry (n / d) f)) (div-add-mod n d)
      (rounded d (n / d) (n % d) f (omega arith) low high)
