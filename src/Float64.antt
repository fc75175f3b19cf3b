-- ===== src/Float64.antt =====
-- All that the backend does with a `float64`: the constants of the source, arithmetic and two
-- comparisons. The format itself is not modelled: it is an interface, with the laws of the
-- comparison (IEEE 754) that the theorems need as a record of their own.
pub mod Fixed
use dora_metrics_app.Base.{◌+◌, ◌*◌, ◌<◌, leb, ℕ, ◌≡◌, ◌⊎◌, Bool, true, not}
use dora_metrics_app.Base.Int.{ℤ, pos}

pub record Float64 {ℓ} (F : Type ℓ) : Type ℓ where
  -- the float nearest to a fraction of two numbers, and to an integer
  pub frac : ℕ → ℕ → F
  pub of_int : ℤ → F
  pub le : F → F → Bool
  pub lt : F → F → Bool
  pub add : F → F → F
  pub sub : F → F → F
  pub mul : F → F → F
  pub div : F → F → F
  pub neg : F → F
  -- `math.Floor`, `int(math.Round(x))`, `int(x)`, and neither NaN nor an infinity
  pub floor : F → F
  pub round : F → ℤ
  pub to_int : F → ℤ
  pub is_finite : F → Bool

infix 4 ◌≼◌
abbrev pub ◌≼◌ {ℓ} : {F : Type ℓ} ⦃f : Float64 F⦄ → F → F → Type 0
◌≼◌ ⦃f⦄ x y = f.le x y ≡ true

-- NaN is the value that is not `<=` itself. The order is total away from it.
pub record IsOrdered {ℓ} (F : Type ℓ) ⦃f : Float64 F⦄ : Type ℓ where
  pub refl_of_le : (x y : F) → x ≼ y → (x ≼ x) × (y ≼ y)
  pub le_trans : (x y z : F) → x ≼ y → y ≼ z → x ≼ z
  pub le_total : (x y : F) → x ≼ x → y ≼ y → (x ≼ y) ⊎ (y ≼ x)
  pub lt-eq-not-le : (x y : F) → x ≼ x → y ≼ y → f.lt x y ≡ not (f.le y x)
  pub lt_irrefl_nan : (x y : F) → f.lt x y ≡ true → (x ≼ x) × (y ≼ y)

-- A half of an odd number is a float, and compares with an integer as the numbers do.
pub record HasHalves {ℓ} (F : Type ℓ) ⦃f : Float64 F⦄ : Type ℓ where
  pub le_half :
      (k n : ℕ)
      → k < 10
      → n < 10
      → f.le (f.frac (2 * k + 1) 2) (f.of_int (pos n)) ≡ leb (2 * k + 1) (2 * n)
