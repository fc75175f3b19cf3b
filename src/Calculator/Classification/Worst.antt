-- ===== src/Calculator/Classification/Worst.antt =====
-- `WorstOf` is the tier of the least rank.
use mathlib.Core.List.{foldl}
use dora_metrics_app.Base.{
  ℕ, ◌≡◌, refl, inl, inr, String, Option, none, some, List, [], ◌∷◌, arith, ltb, if◌then◌else◌,
  Option-cases,
}
use dora_metrics_app.Base.Int.{ℤ, pos, negsuc}
use dora_metrics_app.Tier.{rank, tier_insufficient_data}
use dora_metrics_app.Tier.Ranks.{tier_of_rank, tier_of_rank-rank}
use dora_metrics_app.Calculator.Classification.{worst_step, worst_of}

abbrev least : Option ℕ → Option ℕ → Option ℕ
least none o = o
least (some a) none = some a
least (some a) (some b) = if ltb b a then some b else some a

-- The least rank of the known tiers of a list.
abbrev pub least_rank : List String → Option ℕ
least_rank [] = none
least_rank (t ∷ ts) = least (rank t) (least_rank ts)

abbrev pub tier_of : Option ℕ → String
tier_of none = tier_insufficient_data
tier_of (some r) = tier_of_rank r

-- The state of the loop that has seen tiers whose least rank is `o`.
abbrev Seen : Option ℕ → ℤ × String → Type 0
Seen none s = (s.0 ≡ negsuc 0) × (s.1 ≡ tier_insufficient_data)
Seen (some r) s = (s.0 ≡ pos r) × (s.1 ≡ tier_of_rank r)

Seen-worst_step :
    (o : Option ℕ) (s : ℤ × String) (t : String)
    → Seen o s
    → Seen (least o (rank t)) (worst_step s t)
Seen-worst_step none (w, n) t h = elim (Option-cases (rank t)) [
  | inl e ↦ rw (e, worst_step) h
  | inr (r, e) ↦ ground (arith, e, tier_of_rank-rank t r e)
]
Seen-worst_step (some a) (w, n) t h = elim (Option-cases (rank t)) [
  | inl e ↦ rw (e, worst_step) h
  | inr (r, e) ↦ ground (arith, e, tier_of_rank-rank t r e)
]

least_assoc : (a b c : Option ℕ) → least (least a b) c ≡ least a (least b c)
least_assoc a b c = ground arith

Seen-foldl :
    (ts : List String) (o : Option ℕ) (s : ℤ × String)
    → Seen o s
    → Seen (least o (least_rank ts)) (foldl worst_step s ts)
Seen-foldl [] none s h = h
Seen-foldl [] (some a) s h = h
Seen-foldl (t ∷ ts) o s h =
    rw (← least_assoc o (rank t) (least_rank ts))
      (Seen-foldl ts (least o (rank t)) (worst_step s t) (Seen-worst_step o s t h))

Seen-name : (o : Option ℕ) (s : ℤ × String) → Seen o s → s.1 ≡ tier_of o
Seen-name none s h = h.1
Seen-name (some a) s h = h.1

-- The worst of several tiers is the tier of the least rank among those that are known, and
-- "insufficient_data" when none is: strings that are no known tier are ignored.
pub worst_of-eq-least : (tiers : List String) → worst_of tiers ≡ tier_of (least_rank tiers)
unfolding worst_of
worst_of-eq-least tiers =
    Seen-name (least_rank tiers) (foldl worst_step (negsuc 0, tier_insufficient_data) tiers)
      (Seen-foldl tiers none (negsuc 0, tier_insufficient_data) (refl, refl))
