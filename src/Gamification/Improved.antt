-- ===== src/Gamification/Improved.antt =====
-- When "Most Improved" unlocks.
use mathlib.Core.List.{foldl}
use mathlib.Core.Option.{some-injective}
use dora_metrics_app.Base.{
  ℕ, suc, ◌+◌, ◌-◌, ◌≤◌, ◌<◌, ◌≡◌, ◌↔◌, ◌⊎◌, inl, inr, refl, ap, sym, ◌∙◌, String, true, false,
  ◌&&◌, some, List, [], ◌∷◌, arith, length, get_last?, Any, ltb, leb, Bool-cases,
}
use dora_metrics_app.Tier.{classification_rank}
use dora_metrics_app.Gamification.{lower, improved_to, most_improved_unlocked}

-- The loop finds a rank below `bound` exactly if a known tier of the list, or the start, has one.
foldl-lower-le :
    (cs : List String) (start bound : ℕ)
    → (foldl lower start cs ≤ bound) ↔ (
        (start ≤ bound)
        ⊎ Any (λ c. (0 < classification_rank c) × (classification_rank c ≤ bound)) cs)
foldl-lower-le [] start bound = (λ h. inl h, λ h. elim h [ inl k ↦ k | inr k ↦ absurd k ])
foldl-lower-le (c ∷ cs) start bound =
    let (to, from) = foldl-lower-le cs (lower start c) bound in
    (
      λ h. elim (to h) [ inl k ↦ split k | inr k ↦ inr (inr k) ],
      λ h. elim h [
        | inl k ↦ from (inl (ground arith))
        | inr k ↦ elim k [ inl j ↦ from (inl (ground arith)) | inr j ↦ from (inr j) ]
      ],
    )
  where
    split :
        lower start c ≤ bound
        → (start ≤ bound)
          ⊎ Any (λ d. (0 < classification_rank d) × (classification_rank d ≤ bound)) (c ∷ cs)
    split k =
        elim (Bool-cases (ltb 0 (classification_rank c) && ltb (classification_rank c) start)) [
          | inl e ↦ inr (inl (ground arith, rw e at k))
          | inr e ↦ inl (rw e at k)
        ]

-- A known tier of the list that stands two ranks below the last one, or more.
abbrev pub TwoBelow : String → List String → Type 0
TwoBelow last =
    Any λ c. (0 < classification_rank c) × (classification_rank c + 2 ≤ classification_rank last)

Any-map :
    {P Q : String → Type 0} (cs : List String) → ((c : String) → P c → Q c) → Any P cs → Any Q cs
Any-map [] f h = h
Any-map (c ∷ cs) f (inl h) = inl (f c h)
Any-map (c ∷ cs) f (inr h) = inr (Any-map cs f h)

TwoBelow-rank : (cs : List String) (last : String) → TwoBelow last cs → 3 ≤ classification_rank last
TwoBelow-rank [] last h = absurd h
TwoBelow-rank (c ∷ cs) last (inl h) = omega arith
TwoBelow-rank (c ∷ cs) last (inr h) = TwoBelow-rank cs last h

below :
    (cs : List String) (last : String)
    → 3 ≤ classification_rank last
    → (foldl lower (classification_rank last) cs ≤ classification_rank last - 2) ↔ TwoBelow last cs
below cs last h =
    let (to, from) = foldl-lower-le cs (classification_rank last) (classification_rank last - 2) in
    (
      λ k. elim (to k) [
        | inl j ↦ absurd (omega arith)
        | inr j ↦ Any-map cs (λ c i. (i.0, omega (arith, i.1))) j
      ],
      λ k. from (inr (Any-map cs (λ c i. (i.0, omega (arith, i.1))) k)),
    )

foldl-lower-pos : (cs : List String) (start : ℕ) → 0 < start → 0 < foldl lower start cs
foldl-lower-pos [] start h = h
foldl-lower-pos (c ∷ cs) start h = foldl-lower-pos cs (lower start c) (ground arith)

improved_to_iff :
    (cs : List String) (last : String) → (improved_to cs last ≡ true) ↔ TwoBelow last cs
improved_to_iff cs last = elim (Bool-cases (leb 3 (classification_rank last))) [
  | inl e ↦
      let (to, from) = below cs last (ground arith) in
      (λ h. to (ground arith), λ h. ground (arith, from h))
  | inr e ↦ (λ h. absurd (few e h), λ h. absurd (ground (arith, TwoBelow-rank cs last h)))
]
  where
    few : leb 3 (classification_rank last) ≡ false → improved_to cs last ≡ true → ⊥
    few e h = ground (arith, foldl-lower-pos cs (classification_rank last))

two_or_more : (n : ℕ) → ltb (suc (suc n)) 2 ≡ false
two_or_more n = ground arith

most_improved-many :
    (ps : List String) (last : String)
    → ltb (length ps) 2 ≡ false
    → get_last? ps ≡ some last
    → most_improved_unlocked ps ≡ improved_to ps last
unfolding most_improved_unlocked
most_improved-many ps last short e = rw (short, e) refl

-- "Most Improved" unlocks exactly when the last snapshot stands two ranks or more above some
-- snapshot of a known tier; an insufficient one counts neither as a start nor as an end, and fewer
-- than two snapshots never unlock it.
pub most_improved_unlocked_iff :
    (progression : List String) (last : String)
    → get_last? progression ≡ some last
    → (most_improved_unlocked progression ≡ true) ↔ TwoBelow last progression
unfolding most_improved_unlocked
most_improved_unlocked_iff [] last e = cc
most_improved_unlocked_iff (c ∷ []) last e =
    let same : c ≡ last = some-injective _ _ e in (λ h. cc, λ h. absurd (one same h))
  where
    one : c ≡ last → TwoBelow last (c ∷ []) → ⊥
    one same (inl h) = omega (arith, ap classification_rank same)
    one same (inr h) = h
most_improved_unlocked_iff (c ∷ d ∷ cs) last e =
    let (to, from) = improved_to_iff (c ∷ d ∷ cs) last in
    let many = most_improved-many (c ∷ d ∷ cs) last (two_or_more (length cs)) e in
    (λ h. to (sym many ∙ h), λ h. many ∙ from h)
