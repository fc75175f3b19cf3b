-- ===== src/Collector/Digest/Week.antt =====
-- The week that a digest is of.
use dora_metrics_app.Base.{ℕ, ◌+◌, ◌-◌, ◌*◌, ◌/◌, ◌%◌, ◌≤◌, ◌<◌, ◌≡◌, arith, ◌==◌, if◌then◌else◌}
use dora_metrics_app.Collector.Digest.{
  second, day, weekday, start_of_iso_week, digest_end, digest_start,
}

-- The midnight of a Monday.
abbrev pub IsMonday : ℕ → Type 0
IsMonday t = (t % day ≡ 0) × (weekday t ≡ 1)

-- Days instead of instants.
monday_of : ℕ → ℕ
monday_of d = d - ((if (d + 4) % 7 == 0 then 7 else (d + 4) % 7) - 1)

monday_of_bounds :
    (d : ℕ) → 4 ≤ d → ((monday_of d + 4) % 7 ≡ 1) × (monday_of d ≤ d) × (d < monday_of d + 7)
unfolding monday_of
monday_of_bounds d h = ground arith

start-monday : (t : ℕ) → start_of_iso_week t ≡ monday_of (t / day) * day
unfolding start_of_iso_week monday_of
start-monday t = ground arith

start_lem :
    (t : ℕ)
    → 4 * day ≤ t
    → IsMonday (start_of_iso_week t)
      × (start_of_iso_week t ≤ t)
      × (t < start_of_iso_week t + 7 * day)
start_lem t h = omega (arith, start-monday t, monday_of_bounds (t / day) (omega arith))

-- A digest that is computed at any instant (from the third week of 1970 on) is of the closed week: it
-- starts on a Monday at midnight, the next Monday at midnight is the last one that is not after the
-- instant, and the end of the digest is one second before that.
pub digest_week :
    (now : ℕ)
    → 11 * day ≤ now
    → IsMonday (digest_start now)
      × IsMonday (digest_start now + 7 * day)
      × (digest_start now + 7 * day ≤ now)
      × (now < digest_start now + 14 * day)
      × (digest_end now + second ≡ digest_start now + 7 * day)
unfolding digest_start digest_end
digest_week now h =
    omega (arith, start_lem now (omega arith), start_lem (start_of_iso_week now - second) (later h))
  where
    later : 11 * day ≤ now → 4 * day ≤ start_of_iso_week now - second
    later k = omega (arith, start_lem now (omega arith))
