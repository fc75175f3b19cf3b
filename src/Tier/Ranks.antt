-- ===== src/Tier/Ranks.antt =====
-- The tables of ranks of the tiers beside one another.
use dora_metrics_app.Base.{ℕ, ◌≡◌, String, Option, none, some, arith, eq_iff, if◌then◌else◌, ◌==◌}
use dora_metrics_app.Base.Int.{ℤ, pos, negsuc}
use dora_metrics_app.Tier.{tier_order, classification_rank, tier_rank, rank}

-- The tier of a rank.
abbrev pub tier_of_rank : ℕ → String
tier_of_rank r =
    if r == 4 then "elite" else if r == 3 then "high" else if r == 2 then "medium" else "low"

abbrev pub of_rank : Option ℕ → ℕ → ℕ
of_rank none d = d
of_rank (some r) d = r

abbrev pub order_of : Option ℕ → ℤ
order_of none = negsuc 0
order_of (some r) = pos r

-- The three tables of ranks say the same of every string: they differ only in what they give to a
-- string that is not a known tier (-1, 0, 0 and no entry).
pub ranks_agree :
    (t : String)
    → (tier_order t ≡ order_of (rank t))
      × (classification_rank t ≡ of_rank (rank t) 0)
      × (tier_rank t ≡ of_rank (rank t) 0)
unfolding tier_order classification_rank tier_rank rank
ranks_agree t = ground arith

-- Two known tiers of one rank are the same tier.
pub tier_of_rank-rank : (t : String) (r : ℕ) → rank t ≡ some r → tier_of_rank r ≡ t
unfolding rank
tier_of_rank-rank t r h =
    ground (arith, eq_iff t "elite", eq_iff t "high", eq_iff t "medium", eq_iff t "low")
