-- ===== src/Calculator/Median/Halves.antt =====
-- What a median of backend/internal/calculator is.
use mathlib.Core.Path.{subst}
use dora_metrics_app.Base.{
  ℕ, suc, ◌-◌, ◌*◌, ◌/◌, ◌%◌, ◌≤◌, ◌<◌, ◌≡◌, inl, inr, false, some, List, ◌∷◌, arith, length,
  get_elem?, get_elem?_of_lt, count, count_mono, All, All-get_elem?, ◌==◌, Bool-cases,
}
use dora_metrics_app.Base.Int.{ℤ, leb_ℤ, leb_ℤ_total, leb_ℤ_trans, mean, mean_bounds, IsHalf, ◌≤ℤ◌}
use dora_metrics_app.Base.Sort.{
  sort, IsSorted, sort-IsSorted, length-sort, count-sort, All-sort, count-at_most, count-at_least,
  sorted-next,
}
use dora_metrics_app.Calculator.Median.{middle, median_int64, median_of_ints}

-- At least half of the numbers are at most `m`, and at least half are at least `m`.
abbrev pub Halves : List ℤ → ℤ → Type 0
Halves xs m =
    (length xs ≤ 2 * count (λ x. leb_ℤ x m) xs) × (length xs ≤ 2 * count (λ x. leb_ℤ m x) xs)

module _ (s : List ℤ) (sorted : IsSorted leb_ℤ s) where
  odd_middle : (m : ℤ) → (length s % 2 ≡ 1) → get_elem? s (length s / 2) ≡ some m → Halves s m
  odd_middle m odd e = omega (
    arith,
    count-at_most leb_ℤ leb_ℤ_total leb_ℤ_trans s (length s / 2) m sorted e,
    count-at_least leb_ℤ leb_ℤ_total leb_ℤ_trans s (length s / 2) m sorted e,
  )

  even_middle :
      (a b : ℤ) (k : ℕ)
      → length s ≡ 2 * suc k
      → get_elem? s k ≡ some a
      → get_elem? s (suc k) ≡ some b
      → IsHalf a
      → IsHalf b
      → Halves s (mean a b)
  even_middle a b k even ea eb ha hb =
      let step : a ≤ℤ b =
        ground (arith, sorted-next leb_ℤ leb_ℤ_total leb_ℤ_trans s k a b sorted ea eb) in
      let (low, high) = mean_bounds a b step ha hb in
      omega (
        arith,
        count-at_most leb_ℤ leb_ℤ_total leb_ℤ_trans s k a sorted ea,
        count-at_least leb_ℤ leb_ℤ_total leb_ℤ_trans s (suc k) b sorted eb,
        count_mono (λ x. leb_ℤ x a) (λ x. leb_ℤ x (mean a b)) s (λ x h. ground arith),
        count_mono (λ x. leb_ℤ b x) (λ x. leb_ℤ (mean a b) x) s (λ x h. ground arith),
      )

  middle_even :
      (a b : ℤ)
      → (length s % 2 == 1) ≡ false
      → get_elem? s (length s / 2 - 1) ≡ some a
      → get_elem? s (length s / 2) ≡ some b
      → middle s ≡ some (mean a b)
  middle_even a b e ea eb = rw (e, ea, eb)

  middle-Halves : 0 < length s → All IsHalf s → (m : ℤ) × (middle s ≡ some m) × Halves s m
  middle-Halves some_item fits = elim (Bool-cases (length s % 2 == 1)) [
    | inl e ↦
        let (m, em) = get_elem?_of_lt s (length s / 2) (omega arith) in
        (m, rw e em, odd_middle m (ground arith) em)
    | inr e ↦
        let k : ℕ = length s / 2 - 1 in
        let even : length s ≡ 2 * suc k = ground arith in
        let at : length s / 2 ≡ suc k = omega arith in
        let (a, ea) = get_elem?_of_lt s k (omega arith) in
        let (b, eb) = get_elem?_of_lt s (length s / 2) (omega arith) in
        (
          mean a b,
          middle_even a b e ea eb,
          even_middle a b k even ea (subst (λ i. get_elem? s i ≡ some b) at eb)
              (All-get_elem? IsHalf s k a fits ea)
              (All-get_elem? IsHalf s (length s / 2) b fits eb),
        )
  ]

sort-Halves : (xs : List ℤ) (m : ℤ) → Halves (sort leb_ℤ xs) m → Halves xs m
sort-Halves xs m h = omega (
  arith,
  length-sort leb_ℤ xs,
  count-sort leb_ℤ (λ x. leb_ℤ x m) xs,
  count-sort leb_ℤ (λ x. leb_ℤ m x) xs,
)

-- The median of a sample that is not empty exists, with no index out of range, and has at least half
-- of the sample at or below it and at least half at or above it. The numbers are within half of the
-- range of int64, so that the sum of the two in the middle does not wrap around.
pub median_int64-Halves :
    (x : ℤ) (xs : List ℤ)
    → All IsHalf (x ∷ xs)
    → (m : ℤ) × (median_int64 (x ∷ xs) ≡ some m)
      × (median_of_ints (x ∷ xs) ≡ some m)
      × Halves (x ∷ xs) m
unfolding median_int64 median_of_ints
median_int64-Halves x xs fits =
    let s = sort leb_ℤ (x ∷ xs) in
    let (m, e, h) =
      middle-Halves s (sort-IsSorted leb_ℤ leb_ℤ_total leb_ℤ_trans (x ∷ xs))
        (omega (arith, length-sort leb_ℤ (x ∷ xs))) (All-sort leb_ℤ IsHalf (x ∷ xs) fits) in
    (m, e, e, sort-Halves (x ∷ xs) m h)
