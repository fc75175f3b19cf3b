-- ===== src/Base/Sort.antt =====
-- `sort.Ints`, `sort.Slice` and `sort.SliceStable` as an insertion sort, with the lemmas on its order
-- and its items.
use Prim.Native.Nat.{ℕ, zero, suc, ◌+◌, ◌≤◌}
use mathlib.Core.Path.{◌≡◌, refl, subst}
use mathlib.Core.Logic.{◌⊎◌, inl, inr}
use mathlib.Core.Bool.{Bool, true}
use mathlib.Core.List.{List, [], ◌∷◌}
use mathlib.Core.Option.{some}
use native.Mathlib.Omega.{arith}
use dora_metrics_app.Base.Tests.{if◌then◌else◌, Bool-cases}
use dora_metrics_app.Base.Lists.{length, get_elem?, All, count, count-true, All-get_elem?}

module _ {ℓ} {A : Type ℓ} (le : A → A → Bool) where
  unfoldable pub insert : A → List A → List A
  insert x [] = x ∷ []
  insert x (y ∷ ys) = if le x y then x ∷ y ∷ ys else y ∷ insert x ys

  unfoldable pub sort : List A → List A
  unfolding insert
  sort [] = []
  sort (x ∷ xs) = insert x (sort xs)

  abbrev pub IsSorted : List A → Type 0
  IsSorted [] = Unit
  IsSorted (x ∷ xs) = All (λ y. le x y ≡ true) xs × IsSorted xs

  pub count-insert : (p : A → Bool) (x : A) (xs : List A) → count p (insert x xs) ≡ count p (x ∷ xs)
  unfolding insert
  count-insert p x [] = refl
  count-insert p x (y ∷ ys) = ground (arith, count-insert p x ys)

  -- Sorting keeps how often each test holds.
  pub count-sort : (p : A → Bool) (xs : List A) → count p (sort xs) ≡ count p xs
  unfolding sort
  count-sort p [] = refl
  count-sort p (x ∷ xs) = omega (arith, count-insert p x (sort xs), count-sort p xs)

  length-insert : (x : A) (xs : List A) → length (insert x xs) ≡ suc (length xs)
  unfolding insert
  length-insert x [] = refl
  length-insert x (y ∷ ys) = ground (arith, length-insert x ys)

  pub length-sort : (xs : List A) → length (sort xs) ≡ length xs
  unfolding sort
  length-sort [] = refl
  length-sort (x ∷ xs) = omega (arith, length-insert x (sort xs), length-sort xs)

  pub All-insert : (P : A → Type 0) (x : A) (xs : List A) → P x → All P xs → All P (insert x xs)
  unfolding insert
  All-insert P x [] h k = (h, tt)
  All-insert P x (y ∷ ys) h k = ground (arith, All-insert P x ys h k.1)

  pub All-sort : (P : A → Type 0) (xs : List A) → All P xs → All P (sort xs)
  unfolding sort
  All-sort P [] h = tt
  All-sort P (x ∷ xs) h = All-insert P x (sort xs) h.0 (All-sort P xs h.1)

module _ {ℓ} {A : Type ℓ} (le : A → A → Bool)
    (total : (a b : A) → (le a b ≡ true) ⊎ (le b a ≡ true))
    (trans : (a b c : A) → le a b ≡ true → le b c ≡ true → le a c ≡ true) where
  All-trans :
      (x y : A) (ys : List A)
      → le x y ≡ true
      → All (λ z. le y z ≡ true) ys
      → All (λ z. le x z ≡ true) ys
  All-trans x y [] h k = tt
  All-trans x y (z ∷ zs) h k = (trans x y z h k.0, All-trans x y zs h k.1)

  insert-IsSorted : (x : A) (xs : List A) → IsSorted le xs → IsSorted le (insert le x xs)
  unfolding insert
  insert-IsSorted x [] h = (tt, tt)
  insert-IsSorted x (y ∷ ys) h = elim (Bool-cases (le x y)) [
    | inl e ↦ rw e ((e, All-trans x y ys e h.0), h)
    | inr e ↦ rw e (
      All-insert le (λ z. le y z ≡ true) x ys (ground (arith, total x y)) h.0,
      insert-IsSorted x ys h.1,
    )
  ]

  pub sort-IsSorted : (xs : List A) → IsSorted le (sort le xs)
  unfolding sort
  sort-IsSorted [] = tt
  sort-IsSorted (x ∷ xs) = insert-IsSorted x (sort le xs) (sort-IsSorted xs)

  -- In a sorted list the items at and before place `k` are at most the one at `k`.
  pub count-at_most :
      (xs : List A) (k : ℕ) (m : A)
      → IsSorted le xs
      → get_elem? xs k ≡ some m
      → suc k ≤ count (λ y. le y m) xs
  count-at_most [] k m h e = cc
  count-at_most (x ∷ xs) zero m h e = let same : x ≡ m = cc in rw same (ground (arith, total m m))
  count-at_most (x ∷ xs) (suc k) m h e =
      ground (arith, count-at_most xs k m h.1 e, All-get_elem? (λ z. le x z ≡ true) xs k m h.0 e)

  -- And those from place `k` on are at least the one at `k`.
  pub count-at_least :
      (xs : List A) (k : ℕ) (m : A)
      → IsSorted le xs
      → get_elem? xs k ≡ some m
      → length xs ≤ k + count (λ y. le m y) xs
  count-at_least [] k m h e = cc
  count-at_least (x ∷ xs) zero m h e =
      let same : x ≡ m = cc in
      subst (λ z. suc (length xs) ≤ 0 + count (λ y. le z y) (x ∷ xs)) same
        (ground (arith, total x x, count-true (λ y. le x y) xs h.0))
  count-at_least (x ∷ xs) (suc k) m h e = ground (arith, count-at_least xs k m h.1 e)

  pub sorted-next :
      (xs : List A) (k : ℕ) (a b : A)
      → IsSorted le xs
      → get_elem? xs k ≡ some a
      → get_elem? xs (suc k) ≡ some b
      → le a b ≡ true
  sorted-next [] k a b h e f = cc
  sorted-next (x ∷ xs) zero a b h e f =
      let same : x ≡ a = cc in
      subst (λ z. le z b ≡ true) same (All-get_elem? (λ z. le x z ≡ true) xs zero b h.0 f)
  sorted-next (x ∷ xs) (suc k) a b h e f = sorted-next xs k a b h.1 e f
