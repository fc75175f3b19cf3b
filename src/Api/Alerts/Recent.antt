-- ===== src/Api/Alerts/Recent.antt =====
-- The recent events of a tenant.
use dora_metrics_app.Base.{
  ℕ, zero, suc, Bool, ◌≤◌, ◌≡◌, inl, inr, true, Option, none, some, List, [], ◌∷◌, arith, All,
  length, take, length-take, keep, All-keep, ◌==◌, Bool-cases,
}
use dora_metrics_app.Base.Int.{ℤ, pos, negsuc, leb_ℤ, leb_ℤ_total, leb_ℤ_trans}
use dora_metrics_app.Base.Sort.{sort, IsSorted, sort-IsSorted, All-sort}
use dora_metrics_app.Base.Text.{Text, same}
use dora_metrics_app.Collector.Gitlab.{atoi}
use dora_metrics_app.Api.Alerts.{AlertEvent, limit_in_bounds, limit_of, list_alert_events}

All-take : {A : Type 0} (P : A → Type 0) (n : ℕ) (xs : List A) → All P xs → All P (take n xs)
All-take P zero xs h = tt
All-take P (suc n) [] h = tt
All-take P (suc n) (x ∷ xs) h = (h.0, All-take P n xs h.1)

abbrev pub not_before : AlertEvent → AlertEvent → Bool
not_before a b = leb_ℤ b.fired_at a.fired_at

IsSorted-take :
    (n : ℕ) (xs : List AlertEvent) → IsSorted not_before xs → IsSorted not_before (take n xs)
IsSorted-take zero xs h = tt
IsSorted-take (suc n) [] h = tt
IsSorted-take (suc n) (x ∷ xs) h =
    (All-take (λ y. not_before x y ≡ true) n xs h.0, IsSorted-take n xs h.1)

limit_bound : (n : Option ℤ) → limit_in_bounds n ≤ 500
limit_bound none = omega arith
limit_bound (some (negsuc n)) = omega arith
limit_bound (some (pos n)) = ground arith

limit_of_bound : (v : Text) → limit_of v ≤ 500
unfolding limit_of
limit_of_bound v = elim (Bool-cases (same v [])) [
  | inl e ↦ rw e (omega arith)
  | inr e ↦ rw e (limit_bound (atoi v))
]

-- Whatever limit a request for the recent events asks for, a number or not, the reply has at most 500
-- events, all of the tenant, with the latest first.
pub list_alert_events_lem :
    (events : List AlertEvent) (tenant : ℕ) (limit : Text)
    → (length (list_alert_events events tenant limit) ≤ 500)
      × All (λ e. (e.tenant_id == tenant) ≡ true) (list_alert_events events tenant limit)
      × IsSorted not_before (list_alert_events events tenant limit)
unfolding list_alert_events
list_alert_events_lem events tenant limit =
    let mine = keep (λ e. e.tenant_id == tenant) events in
    (
      omega (arith, length-take (limit_of limit) (sort not_before mine), limit_of_bound limit),
      All-take (λ e. (e.tenant_id == tenant) ≡ true) (limit_of limit) (sort not_before mine)
          (All-sort not_before (λ e. (e.tenant_id == tenant) ≡ true) mine
            (All-keep (λ e. e.tenant_id == tenant) events)),
      IsSorted-take (limit_of limit) (sort not_before mine) (
          sort-IsSorted not_before (λ a b. leb_ℤ_total b.fired_at a.fired_at)
            (λ a b c h k. leb_ℤ_trans c.fired_at b.fired_at a.fired_at k h) mine),
    )
