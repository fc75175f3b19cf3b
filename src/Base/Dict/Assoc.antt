-- ===== src/Base/Dict/Assoc.antt =====
-- Association lists with text keys.
use mathlib.Core.Path.{◌≡◌}
use mathlib.Core.List.{List, [], ◌∷◌}
use mathlib.Core.Option.{Option, none, some}
use native.Mathlib.Omega.{arith}
use dora_metrics_app.Base.Tests.{if◌then◌else◌}
use dora_metrics_app.Base.Text.{Text, same, same_iff}

abbrev pub Assoc {ℓ} : Type ℓ → Type ℓ
Assoc V = List (Text × V)

module _ {ℓ} {V : Type ℓ} where
  unfoldable pub lookup : Text → Assoc V → Option V
  lookup k [] = none
  lookup k ((j, v) ∷ l) = if same j k then some v else lookup k l

  unfoldable pub without : Text → Assoc V → Assoc V
  without k [] = []
  without k ((j, v) ∷ l) = let rest = without k l in if same j k then rest else (j, v) ∷ rest

  pub lookup-without :
      (k j : Text) (l : Assoc V) → lookup j (without k l) ≡ (if same k j then none else lookup j l)
  unfolding lookup without
  lookup-without k j [] = ground arith
  lookup-without k j ((i, v) ∷ l) =
      ground (arith, lookup-without k j l, same_iff i k, same_iff i j, same_iff k j)
