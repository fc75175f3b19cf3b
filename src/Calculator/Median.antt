-- ===== src/Calculator/Median.antt =====
-- The medians of backend/internal/calculator: `medianInt64` of subcomponents.go and `medianOfInts` of
-- gaming.go.
mod Tests
pub mod Halves
use dora_metrics_app.Base.{
  ℕ, suc, ◌-◌, ◌/◌, ◌%◌, Option, none, some, List, [], ◌∷◌, length, get_elem?, ◌==◌, if◌then◌else◌,
}
use dora_metrics_app.Base.Int.{ℤ, leb_ℤ, mean}
use dora_metrics_app.Base.Sort.{sort}

abbrev mean_of : Option ℤ → Option ℤ → Option ℤ
mean_of (some a) (some b) = some (mean a b)
mean_of _ _ = none

-- `none` is an index out of range.
abbrev pub middle : List ℤ → Option ℤ
middle sorted =
    let n = length sorted in
    if n % 2 == 1
    then get_elem? sorted (n / 2)
    else mean_of (get_elem? sorted (n / 2 - 1)) (get_elem? sorted (n / 2))

-- `none` is the panic of an index out of range, on no numbers.
unfoldable pub median_of_ints : List ℤ → Option ℤ
unfolding sort mean
median_of_ints [] = none
median_of_ints (x ∷ xs) = middle (sort leb_ℤ (x ∷ xs))

-- `none` is nil.
unfoldable pub median_int64 : List ℤ → Option ℤ
unfolding sort mean
median_int64 [] = none
median_int64 (x ∷ xs) = middle (sort leb_ℤ (x ∷ xs))
