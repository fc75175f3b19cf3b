-- ===== src/Base/Members.antt =====
-- Members of a mapped, a kept and an appended list.
use mathlib.Core.Path.{subst}
use mathlib.Core.Path.{◌≡◌, sym, ap, ◌∙◌}
use mathlib.Core.Logic.{◌⊎◌, inl, inr}
use mathlib.Core.Bool.{Bool, true, false}
use mathlib.Core.List.{List, [], ◌∷◌, ◌++◌, map}
use native.Mathlib.Omega.{arith}
use dora_metrics_app.Base.Tests.{Bool-cases}
use dora_metrics_app.Base.Lists.{Any, keep}

module _ {A : Type 0} {B : Type 0} (a₀ a : A) (b : B) where
  pub pairs-Any :
      (bs : List B)
      → Any {A = A × B} (λ c. c ≡ (a, b)) (map (λ b. (a₀, b)) bs)
      → (a₀ ≡ a) × Any (λ x. x ≡ b) bs
  pairs-Any [] h = absurd h
  pairs-Any (x ∷ bs) (inl e) = (ap (λ c. c.0) e, inl (ap (λ c. c.1) e))
  pairs-Any (x ∷ bs) (inr h) = let (e, k) = pairs-Any bs h in (e, inr k)

  pub Any-pairs :
      (bs : List B)
      → a₀ ≡ a
      → Any (λ x. x ≡ b) bs
      → Any {A = A × B} (λ c. c ≡ (a, b)) (map (λ b. (a₀, b)) bs)
  Any-pairs [] e h = absurd h
  Any-pairs (x ∷ bs) e (inl k) = inl cc
  Any-pairs (x ∷ bs) e (inr k) = inr (Any-pairs bs e k)

module _ {A : Type 0} (p : A → Bool) (a : A) where
  -- One step of the next two lemmas, from the rest of the list.
  kept_here :
      (x : A)
      → (xs : List A) → p x ≡ true
      → (Any (λ x. x ≡ a) (keep p xs) → Any (λ x. x ≡ a) xs × (p a ≡ true))
      → (x ≡ a) ⊎ Any (λ x. x ≡ a) (keep p xs)
      → Any (λ x. x ≡ a) (x ∷ xs) × (p a ≡ true)
  kept_here x xs e rest (inl same) = (inl same, subst (λ z. p z ≡ true) same e)
  kept_here x xs e rest (inr k) = let (i, e') = rest k in (inr i, e')

  pub keep-Any : (xs : List A) → Any (λ x. x ≡ a) (keep p xs) → Any (λ x. x ≡ a) xs × (p a ≡ true)
  keep-Any [] h = absurd h
  keep-Any (x ∷ xs) h = elim (Bool-cases (p x)) [
    | inl e ↦ kept_here x xs e (keep-Any xs) (rw e at h)
    | inr e ↦ let (i, e') = keep-Any xs (rw e at h) in (inr i, e')
  ]

  not_kept : (x : A) → p x ≡ false → p a ≡ true → x ≡ a → ⊥
  not_kept x miss hit same =
      let stop : true ≡ false = sym hit ∙ sym (ap p same) ∙ miss in ground (arith, stop)

  pub Any-keep : (xs : List A) → p a ≡ true → Any (λ x. x ≡ a) xs → Any (λ x. x ≡ a) (keep p xs)
  Any-keep [] e h = h
  Any-keep (x ∷ xs) e (inl same) = elim (Bool-cases (p x)) [
    | inl hit ↦ rw hit (inl same)
    | inr miss ↦ absurd (not_kept x miss e same)
  ]
  Any-keep (x ∷ xs) e (inr k) = elim (Bool-cases (p x)) [
    | inl hit ↦ rw hit (inr (Any-keep xs e k))
    | inr miss ↦ rw miss (Any-keep xs e k)
  ]

pub Any-append_cases :
    {A : Type 0} (P : A → Type 0) (xs ys : List A) → Any P (xs ++ ys) → Any P xs ⊎ Any P ys
Any-append_cases P [] ys h = inr h
Any-append_cases P (x ∷ xs) ys (inl h) = inl (inl h)
Any-append_cases P (x ∷ xs) ys (inr h) = elim (Any-append_cases P xs ys h) [
  | inl k ↦ inl (inr k)
  | inr k ↦ inr k
]
