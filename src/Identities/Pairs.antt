-- ===== src/Identities/Pairs.antt =====
-- The pairs of identities that `Match` suggests, by their ids.
use mathlib.Core.Path.{subst, ap₂}
use mathlib.Core.Logic.{◌⊎◌}
use dora_metrics_app.Base.{
  ◌≤◌, ◌≡◌, ◌≢◌, refl, ap, sym, ◌∙◌, inl, inr, String, Bool, true, ◌&&◌, List, [], ◌∷◌, ◌++◌, arith,
  Any, All, count, count_mono, eq_iff, Option-cases, Bool-cases,
}
use dora_metrics_app.Base.Text.{Text, same, same_iff, same_refl}
use dora_metrics_app.Identities.{Identity, Suggestion, match, score, pair_key, text_lt}
use dora_metrics_app.Identities.Sound.{Agree, IsSuggested, Agree-score, match-All}
use dora_metrics_app.Identities.Once.{keyed, keyed_sound, keyed_once}

-- A text without a bar, as that of a UUID is.
abbrev pub IsBarless : Text → Type 0
IsBarless = All (λ c. c ≢ b'|')

-- The suggestions of the pair of two ids.
abbrev pub pairs : Text → Text → Suggestion → Bool
pairs x y s = same s.a.id x && same s.b.id y

bar_injective :
    (a b c d : Text) → IsBarless a → IsBarless c → a ++ b'|' ∷ b ≡ c ++ b'|' ∷ d → (a ≡ c) × (b ≡ d)
bar_injective [] b [] d ha hc h = (refl, cc h)
bar_injective [] b (y ∷ c) d ha hc h = absurd (hc.0 (cc h))
bar_injective (x ∷ a) b [] d ha hc h = absurd (ha.0 (cc h))
bar_injective (x ∷ a) b (y ∷ c) d ha hc h =
    let (e, e') = bar_injective a b c d ha.1 hc.1 (cc h) in (ap₂ ◌∷◌ (cc h) e, e')

-- A key gives its pair, up to the order.
pair_key_injective :
    (a b c d : Text)
    → IsBarless a
    → IsBarless b
    → IsBarless c
    → IsBarless d
    → pair_key a b ≡ pair_key c d
    → (a ≡ c) × (b ≡ d) ⊎ (a ≡ d) × (b ≡ c)
unfolding pair_key
pair_key_injective a b c d ha hb hc hd h = elim (Bool-cases (text_lt a b)) [
  | inl e ↦ elim (Bool-cases (text_lt c d)) [
    | inl e' ↦ inl (bar_injective a b c d ha hc (rw (e, e') at h))
    | inr e' ↦ inr (bar_injective a b d c ha hd (rw (e, e') at h))
  ]
  | inr e ↦ elim (Bool-cases (text_lt c d)) [
    | inl e' ↦ let (x, y) = bar_injective b a c d hb hc (rw (e, e') at h) in inr (y, x)
    | inr e' ↦ let (x, y) = bar_injective b a d c hb hd (rw (e, e') at h) in inl (y, x)
  ]
]

same_key : (x y : Text) (s : Suggestion) → pairs x y s ≡ true → keyed (pair_key x y) s ≡ true
same_key x y s h =
    let a = (same_iff s.a.id x).0 (ground (arith, h)) in
    let b = (same_iff s.b.id y).0 (ground (arith, h)) in rw (a, b) (same_refl (pair_key x y))

count_within {ℓ} :
    {A : Type ℓ} (p q : A → Bool) (xs : List A)
    → All (λ x. p x ≡ true → q x ≡ true) xs
    → count p xs ≤ count q xs
count_within p q [] h = omega arith
count_within p q (x ∷ xs) h = ground (arith, h.0, count_within p q xs h.1)

All-map {ℓ} :
    {A : Type ℓ} {P Q : A → Type 0} (xs : List A) → ((x : A) → P x → Q x) → All P xs → All Q xs
All-map [] f h = tt
All-map (x ∷ xs) f h = (f x h.0, All-map xs f h.1)

IsBarless-at :
    (i : Identity) (is : List Identity)
    → All (λ j. IsBarless j.id) is
    → Any (λ j. j ≡ i) is
    → IsBarless i.id
IsBarless-at i [] h m = absurd m
IsBarless-at i (j ∷ is) h (inl e) = subst (λ (k : Identity). IsBarless k.id) e h.0
IsBarless-at i (j ∷ is) h (inr m) = IsBarless-at i is h.1 m

module _ (to_lower : Text → Text) (identities : List Identity)
    (barless : All (λ i. IsBarless i.id) identities)
    (unique : (i j : Identity)
      → Any (λ x. x ≡ i) identities
      → Any (λ x. x ≡ j) identities
      → i.id ≡ j.id
      → i ≡ j) where
  keyed-pairs :
      (g j : Identity) (s : Suggestion)
      → Any (λ i. i ≡ g) identities
      → Any (λ i. i ≡ j) identities
      → g.kind ≡ "gitlab"
      → j.kind ≡ "jira"
      → IsSuggested to_lower identities s
      → keyed (pair_key g.id j.id) s ≡ true
      → pairs g.id j.id s ≡ true
  unfolding same
  keyed-pairs g j s mg mj kg kj hs h =
      elim (pair_key_injective s.a.id s.b.id g.id j.id
        (IsBarless-at s.a identities barless hs.a_given)
        (IsBarless-at s.b identities barless hs.b_given) (IsBarless-at g identities barless mg)
        (IsBarless-at j identities barless mj) ((same_iff _ _).0 h)) [
          | inl (e, e') ↦ rw ((same_iff s.a.id g.id).1 e, (same_iff s.b.id j.id).1 e') refl
          | inr (e, e') ↦
              let swapped = ap (λ (i : Identity). i.kind) (unique s.a j hs.a_given mj e) in
              absurd (not_jira (sym hs.a_gitlab ∙ swapped ∙ kj))
        ]
    where
      not_jira : ◌≢◌ {A = String} "gitlab" "jira"
      not_jira e = cc ((eq_iff "gitlab" "jira").1 e)

  -- Where no id holds a bar, and no two identities share an id: no pair of ids is suggested twice,
  -- and a GitLab identity and a Jira identity whose trimmed e-mails, or user names, are equal in
  -- lower case and not empty are suggested exactly once.
  pub match_once :
      ((x y : Text) → count (pairs x y) (match to_lower identities) ≤ 1)
      × ((g j : Identity)
          → Any (λ i. i ≡ g) identities
          → Any (λ i. i ≡ j) identities
          → g.kind ≡ "gitlab"
          → j.kind ≡ "jira"
          → Agree to_lower g.external_email j.external_email
            ⊎ Agree to_lower g.external_username j.external_username
          → count (pairs g.id j.id) (match to_lower identities) ≡ 1)
  match_once = (
    at_most,
    λ g j mg mj kg kj agree. elim (Option-cases (score to_lower g j)) [
      | inl e ↦ absurd (cc (e, Agree-score to_lower g j agree))
      | inr (s, e) ↦
          let found = keyed_once to_lower identities g j s mg mj kg kj e in
          let within =
            count_within (keyed (pair_key g.id j.id)) (pairs g.id j.id) (match to_lower identities)
              (All-map (match to_lower identities) (λ t. keyed-pairs g j t mg mj kg kj)
                (match-All to_lower identities)) in
          omega (arith, found, within, at_most g.id j.id)
    ],
  )
    where
      at_most : (x y : Text) → count (pairs x y) (match to_lower identities) ≤ 1
      at_most x y = omega (
        arith,
        count_mono (pairs x y) (keyed (pair_key x y)) (match to_lower identities) (same_key x y),
        keyed_sound to_lower identities (pair_key x y),
      )
