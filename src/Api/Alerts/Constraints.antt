-- ===== src/Api/Alerts/Constraints.antt =====
-- The constraints of the table of alert rules, and the handlers' checks.
use dora_metrics_app.Base.{
  ◌≡◌, refl, ap, ◌⊎◌, inl, inr, String, Bool, true, false, ◌||◌, ◌==◌, ==_iff, str_eq, eq_iff,
}
use dora_metrics_app.Base.Int.{ℤ, pos, negsuc}
use dora_metrics_app.Api.Alerts.{Rule, valid_alert_kind, valid_scope_kind, valid_window_days}

-- The CHECK constraints of the table (backend/migrations/0010 and 0012) on the kind, the kind of scope
-- and the window. The handlers set only the first two kinds.
abbrev pub IsKind : String → Type 0
IsKind k = (k ≡ "tier_regression") ⊎ ((k ≡ "tier_change") ⊎ (k ≡ "predicted_regression"))

abbrev pub IsScopeKind : String → Type 0
IsScopeKind k = (k ≡ "project") ⊎ ((k ≡ "team") ⊎ (k ≡ "tenant"))

abbrev pub IsWindow : ℤ → Type 0
IsWindow d = (d ≡ pos 7) ⊎ ((d ≡ pos 30) ⊎ (d ≡ pos 90))

abbrev pub IsAllowed : Rule → Type 0
IsAllowed r = IsKind r.kind × IsScopeKind r.scope_kind × IsWindow r.window_days

either : (a b : Bool) → a || b ≡ true → (a ≡ true) ⊎ (b ≡ true)
either true b h = inl refl
either false b h = inr h

pub valid-IsKind : (k : String) → valid_alert_kind k ≡ true → IsKind k
unfolding valid_alert_kind
valid-IsKind k h = elim (either (str_eq k "tier_regression") (str_eq k "tier_change") h) [
  | inl a ↦ inl ((eq_iff k "tier_regression").0 a)
  | inr b ↦ inr (inl ((eq_iff k "tier_change").0 b))
]

pub valid-IsScopeKind : (k : String) → valid_scope_kind k ≡ true → IsScopeKind k
unfolding valid_scope_kind
valid-IsScopeKind k h =
    elim (either (str_eq k "project") (str_eq k "team" || str_eq k "tenant") h) [
      | inl a ↦ inl ((eq_iff k "project").0 a)
      | inr b ↦ elim (either (str_eq k "team") (str_eq k "tenant") b) [
        | inl c ↦ inr (inl ((eq_iff k "team").0 c))
        | inr d ↦ inr (inr ((eq_iff k "tenant").0 d))
      ]
    ]

pub valid-IsWindow : (d : ℤ) → valid_window_days d ≡ true → IsWindow d
unfolding valid_window_days
valid-IsWindow (negsuc n) h = cc
valid-IsWindow (pos n) h = elim (either (n == 7) (n == 30 || n == 90) h) [
  | inl a ↦ inl (ap pos ((==_iff n 7).0 a))
  | inr b ↦ elim (either (n == 30) (n == 90) b) [
    | inl c ↦ inr (inl (ap pos ((==_iff n 30).0 c)))
    | inr e ↦ inr (inr (ap pos ((==_iff n 90).0 e)))
  ]
]
