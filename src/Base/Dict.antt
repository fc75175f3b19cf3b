-- ===== src/Base/Dict.antt =====
-- Go maps with text keys. The program never ranges over one, so the order is not modelled: clients
-- reason by `dict_laws`.
mod Assoc
use Assoc.{lookup, without, lookup-without}
use mathlib.Core.Path.{◌≡◌, refl}
use mathlib.Core.Bool.{Bool, true, false}
use mathlib.Core.List.{[], ◌∷◌}
use mathlib.Core.Option.{Option, none, some}
use native.Mathlib.Omega.{arith}
use dora_metrics_app.Base.Tests.{if◌then◌else◌}
use dora_metrics_app.Base.Text.{Text, same}

pub record Dict {ℓ} (V : Type ℓ) : Type ℓ where
  entries : Assoc.Assoc V

module _ {ℓ} {V : Type ℓ} where
  unfoldable pub empty : Dict V
  empty = record { entries = [] }

  -- len(m) == 0
  unfoldable pub is_empty : Dict V → Bool
  is_empty d = elim d.entries [ [] ↦ true | _ ↦ false ]

  -- m[k]
  unfoldable pub get : Dict V → Text → Option V
  unfolding lookup
  get d k = lookup k d.entries

  -- delete(m, k)
  unfoldable pub remove : Dict V → Text → Dict V
  unfolding without
  remove d k = record { entries = without k d.entries }

  -- m[k] = v
  unfoldable pub put : Dict V → Text → V → Dict V
  unfolding without
  put d k v = record { entries = (k, v) ∷ without k d.entries }

  pub get-remove :
      (d : Dict V) (k j : Text) → get (remove d k) j ≡ (if same k j then none else get d j)
  unfolding get remove
  get-remove d k j = lookup-without k j d.entries

  pub get-put :
      (d : Dict V) (k j : Text) (v : V) → get (put d k v) j ≡ (if same k j then some v else get d j)
  unfolding get put
  get-put d k j v = ground (arith, lookup-without k j d.entries)

pub get-empty {ℓ} : {V : Type ℓ} (k : Text) → get (empty {V = V}) k ≡ none
unfolding get empty
get-empty k = refl

pub ruleset dict_laws = (get-empty, get-remove, get-put)
