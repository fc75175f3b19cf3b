-- ===== src/Float64/Fixed.antt =====
-- An instance of the interface, for concrete runs: numbers in millionths, rounded towards zero, with
-- `none` for NaN.
use dora_metrics_app.Base.{
  is_some, ℕ, ◌+◌, ◌*◌, ◌/◌, false, Option, none, some, arith, if◌then◌else◌, ◌==◌,
}
use dora_metrics_app.Base.Int.{
  ℤ, pos, negsuc, pos_part, neg_part, leb_ℤ, ltb_ℤ, sub_ℕ, ◌+ℤ◌, ◌-ℤ◌, quot,
}
use dora_metrics_app.Float64.{Float64, IsOrdered, HasHalves}

abbrev pub Fixed : Type 0
Fixed = Option ℤ

abbrev unit : ℕ
unit = 1_000_000

-- The sign of a product or a quotient, put before its size.
abbrev signed : ℤ → ℤ → ℕ → ℤ
signed a b n =
    if ltb_ℤ a (pos 0)
    then (if ltb_ℤ b (pos 0) then pos n else sub_ℕ 0 n)
    else (if ltb_ℤ b (pos 0) then sub_ℕ 0 n else pos n)

abbrev size : ℤ → ℕ
size a = pos_part a + neg_part a

abbrev on_both {ℓ} : {A : Type ℓ} → A → (ℤ → ℤ → A) → Fixed → Fixed → A
on_both d f (some a) (some b) = f a b
on_both d f _ _ = d

abbrev fixed_div : ℤ → ℤ → Fixed
fixed_div a b = if size b == 0 then none else some (signed a b (size a * unit / size b))

-- The whole number of units at or below a number.
abbrev floor_unit : ℤ → ℤ
floor_unit (pos n) = pos (n / unit * unit)
floor_unit (negsuc n) = sub_ℕ 0 ((n / unit + 1) * unit)

-- The nearest integer, a tie going away from zero.
abbrev nearest : ℤ → ℤ
nearest a = signed a (pos 1) ((size a * 2 + unit) / (2 * unit))

instance unfoldable pub fixed_float64 : Float64 Fixed
unfolding ◌+ℤ◌ ◌-ℤ◌ quot
fixed_float64 = record {
  frac = λ a b. if b == 0 then none else some (pos (a * unit / b));
  of_int = λ a. some (signed a (pos 1) (size a * unit));
  le = on_both false leb_ℤ;
  lt = on_both false ltb_ℤ;
  add = on_both none λ a b. some (a +ℤ b);
  sub = on_both none λ a b. some (a -ℤ b);
  mul = on_both none λ a b. some (signed a b (size a * size b / unit));
  div = on_both none fixed_div;
  neg = λ x. elim x [ none ↦ none | some a ↦ some (pos 0 -ℤ a) ];
  floor = λ x. elim x [ none ↦ none | some a ↦ some (floor_unit a) ];
  round = λ x. elim x [ none ↦ pos 0 | some a ↦ nearest a ];
  to_int = λ x. elim x [ none ↦ pos 0 | some a ↦ quot a unit ];
  is_finite = is_some;
}

pub Fixed-IsOrdered : IsOrdered Fixed
unfolding fixed_float64
Fixed-IsOrdered = ground arith

pub Fixed-HasHalves : HasHalves Fixed
unfolding fixed_float64
Fixed-HasHalves = record { le_half = λ k n hk hn. ground arith }
