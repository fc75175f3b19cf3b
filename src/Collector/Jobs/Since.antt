-- ===== src/Collector/Jobs/Since.antt =====
-- Where a collection starts.
use dora_metrics_app.Base.{ℕ, ◌≡◌, ◌⊎◌, inl, inr, refl, ◌+◌, true, Option, ltb, arith, Bool-cases}
use dora_metrics_app.Base.Int.{ℤ, ltb_ℤ, ◌≤ℤ◌, ◌-ℤ◌}
use dora_metrics_app.Collector.Jobs.{days, regular_since, collect_since, earlier_of}

earlier_of_bounds :
    (a b : ℤ)
    → (earlier_of a b ≤ℤ a) × (earlier_of a b ≤ℤ b) × ((earlier_of a b ≡ a) ⊎ (earlier_of a b ≡ b))
earlier_of_bounds a b = elim (Bool-cases (ltb_ℤ a b)) [
  | inl h ↦ rw h (ground arith, ground (arith, h), inl refl)
  | inr h ↦ rw h (ground (arith, h), ground arith, inr refl)
]

one_more : (n : ℕ) → ltb 0 (1 + n) ≡ true
one_more n = ground arith

-- A collection with a backfill starts at least as early as the backfill asks and as one without it
-- would, and at one of these two instants; without a backfill it starts where the last one left off.
pub collect_since_covers :
    (now : ℤ) (last_synced_at : Option ℤ) (n : ℕ)
    → (collect_since now last_synced_at (1 + n) ≤ℤ now -ℤ days (1 + n))
      × (collect_since now last_synced_at (1 + n) ≤ℤ collect_since now last_synced_at 0)
      × ((collect_since now last_synced_at (1 + n) ≡ now -ℤ days (1 + n))
          ⊎ (collect_since now last_synced_at (1 + n) ≡ collect_since now last_synced_at 0))
unfolding collect_since
collect_since_covers now last_synced_at n =
    rw (one_more n) (earlier_of_bounds (now -ℤ days (1 + n)) (regular_since now last_synced_at))
