-- ===== src/Gamification/Once.antt =====
-- The achievements that one evaluation unlocks.
use dora_metrics_app.Base.{
  ℕ, ◌+◌, ◌≤◌, ◌≡◌, inl, inr, refl, ap, sym, ◌∙◌, ◌==◌, String, Bool, true, false, List, [], ◌∷◌,
  ◌++◌, arith, count, count-append, str_eq, eq_iff, if◌then◌else◌, leb, leb, ◌&&◌, length,
  Bool-cases,
}
use dora_metrics_app.Base.Int.{pos, leb_ℤ, ltb_ℤ}
use dora_metrics_app.Gamification.{
  Achievement, ProjectStats, badge, streak, hundred_green_days, thirty_green_days, week_streak,
  current_elite_tier, first_elite_month, speed_demon, recovery_master, most_improved,
  evaluate_achievements, is_fast, all_fast, most_improved_unlocked,
}

abbrev pub with_code : String → Achievement → Bool
with_code c a = str_eq a.code c

-- The place of a code among the eight.
place : String → ℕ
place c =
    if str_eq c "hundred_green_days"
    then 1
    else if str_eq c "thirty_green_days"
    then 2
    else if str_eq c "week_streak"
    then 3
    else if str_eq c "current_elite_tier"
    then 4
    else if str_eq c "first_elite_month"
    then 5
    else if str_eq c "speed_demon"
    then 6
    else if str_eq c "recovery_master"
    then 7
    else if str_eq c "most_improved"
    then 8
    else 0

abbrev at_place : String → ℕ → ℕ
at_place c k = if place c == k then 1 else 0

code_place :
    (c code : String) (k : ℕ) → place code ≡ k → (if str_eq code c then 1 else 0) ≤ at_place c k
code_place c code k e = elim (Bool-cases (str_eq code c)) [
  | inl h ↦
      let there : place c ≡ k = ap place (sym ((eq_iff code c).0 h)) ∙ e in
      rw h (ground (arith, there))
  | inr h ↦ rw h (omega arith)
]

count-badge :
    (c : String) (b : Bool) (a : Achievement) (k : ℕ)
    → place a.code ≡ k
    → count (with_code c) (badge b a) ≤ at_place c k
count-badge c true a k e = omega (arith, code_place c a.code k e)
count-badge c false a k e = omega arith

abbrev streak_of : String → Bool → Bool → Bool → Bool → List Achievement
streak_of now guard hundred thirty seven =
    if guard
    then if hundred
      then hundred_green_days now ∷ []
      else if thirty
      then thirty_green_days now ∷ []
      else if seven
      then week_streak now ∷ []
      else []
    else []

count-streak_of :
    (now c : String) (guard hundred thirty seven : Bool)
    → count (with_code c) (streak_of now guard hundred thirty seven)
      ≤ at_place c 1 + at_place c 2 + at_place c 3
unfolding place
count-streak_of now c false h t s = omega arith
count-streak_of now c true true t s =
    omega (arith, count-badge c true (hundred_green_days now) 1 refl)
count-streak_of now c true false true s =
    omega (arith, count-badge c true (thirty_green_days now) 2 refl)
count-streak_of now c true false false true =
    omega (arith, count-badge c true (week_streak now) 3 refl)
count-streak_of now c true false false false = omega arith

abbrev at : ℕ → ℕ → ℕ
at k j = if k == j then 1 else 0

one_place :
    (k : ℕ) → at k 1 + at k 2 + at k 3 + (at k 4 + (at k 5 + (at k 6 + (at k 7 + at k 8)))) ≤ 1
one_place k = ground arith

count-six :
    (c : String) (a b d e f g : List Achievement)
    → count (with_code c) (a ++ (b ++ (d ++ (e ++ (f ++ g)))))
      ≡ count (with_code c) a
        + (count (with_code c) b
            + (count (with_code c) d
                + (count (with_code c) e + (count (with_code c) f + count (with_code c) g))))
count-six c a b d e f g = simp count-append

-- An evaluation unlocks no achievement twice: no text is the code of two of them, and of the three
-- streaks at most one unlocks.
pub evaluate_achievements_once :
    (now c : String) (s : ProjectStats) → count (with_code c) (evaluate_achievements now s) ≤ 1
unfolding evaluate_achievements place
evaluate_achievements_once now c s = rw (count-six c (streak now s) _ _ _ _ _) (
    omega (
      arith,
      count-streak_of now c
          (ltb_ℤ (pos 0) s.sample_size && leb_ℤ (pos 0) s.days_since_last_incident)
          (leb_ℤ (pos 100) s.days_since_last_incident) (leb_ℤ (pos 30) s.days_since_last_incident)
          (leb_ℤ (pos 7) s.days_since_last_incident),
      count-badge c (str_eq s.current_classification "elite") (current_elite_tier now) 4 refl,
      count-badge c (leb_ℤ (pos 1) s.elite_months_count) (first_elite_month now) 5 refl,
      count-badge c (is_fast s.lead_time_median_seconds && leb_ℤ (pos 4) s.sample_size)
          (speed_demon now) 6 refl,
      count-badge c (leb 5 (length s.last_incidents_mttr) && all_fast s.last_incidents_mttr)
          (recovery_master now) 7 refl,
      count-badge c (most_improved_unlocked s.tier_progression_last3_months) (most_improved now) 8
          refl,
      one_place (place c),
    ))
