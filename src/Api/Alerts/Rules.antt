-- ===== src/Api/Alerts/Rules.antt =====
-- The alert rules under any sequence of requests.
use mathlib.Core.Path.{subst}
use mathlib.Core.Option.{some-injective}
use dora_metrics_app.Base.Int.{ℤ}
use dora_metrics_app.Base.{
  String, ℕ, ◌≡◌, refl, inl, inr, Bool, true, false, not, ◌||◌, Option, none, some, List, [], ◌∷◌,
  keep, ◌==◌, arith, All, Bool-cases,
}
use dora_metrics_app.Base.Text.{Text}
use dora_metrics_app.Collector.Dispatch.{Load, found, no_rows, load_error}
use dora_metrics_app.Api.Alerts.Constraints.{
  IsKind, IsScopeKind, IsWindow, IsAllowed, valid-IsKind, valid-IsScopeKind, valid-IsWindow,
}
use dora_metrics_app.Api.Alerts.{
  Rule, CreateRequest, UpdateRequest, Reply, error, World, valid_alert_kind, valid_scope_kind,
  valid_window_days, scope_of, or_else, lacks_field, is_refused, with_tenant, with_scope, changed,
  find_rule, replace_rule, fails_test, is_update_refused, with_rule, with_new_scope, update_rule,
  delete_rule, handle_create_alert_rule, handle_update_alert_rule, handle_delete_alert_rule,
}

pub data Operation : Type 0 where
  create : World → Option CreateRequest → Operation
  update : World → Text → Option UpdateRequest → Operation
  delete : World → Text → Operation

abbrev pub step : List Rule → Operation → List Rule × Reply
step rules (create w r) = handle_create_alert_rule w rules r
step rules (update w id r) = handle_update_alert_rule w rules id r
step rules (delete w id) = handle_delete_alert_rule w rules id

abbrev pub run : List Rule → List Operation → List Rule
run rules [] = rules
run rules (o ∷ os) = run (step rules o).0 os

all_true :
    (a b c d : Bool)
    → a || (not b || (not c || not d)) ≡ false
    → (b ≡ true) × (c ≡ true) × (d ≡ true)
all_true false true true true h = (refl, refl, refl)
all_true false true true false h = cc
all_true false true false d h = cc
all_true false false c d h = cc
all_true true b c d h = cc

valid-IsAllowed :
    (a b c d : Bool) {k s : String} {w : ℤ}
    → (b ≡ true → IsKind k)
    → (c ≡ true → IsScopeKind s)
    → (d ≡ true → IsWindow w)
    → a || (not b || (not c || not d)) ≡ false
    → IsKind k × IsScopeKind s × IsWindow w
valid-IsAllowed a b c d p q r h = let (x, y, z) = all_true a b c d h in (p x, q y, r z)

find_rule-IsAllowed :
    (id : ℕ) (old : Rule) (xs : List Rule)
    → All IsAllowed xs
    → find_rule id xs ≡ some old
    → IsAllowed old
unfolding find_rule
find_rule-IsAllowed id old [] h e = cc
find_rule-IsAllowed id old (x ∷ xs) h e = elim (Bool-cases (x.id == id)) [
  | inl q ↦ subst IsAllowed (some-injective _ _ (rw q at e)) h.0
  | inr q ↦ find_rule-IsAllowed id old xs h.1 (rw q at e)
]

replace_rule-All :
    (id : ℕ) (new : Rule) (xs : List Rule)
    → IsAllowed new
    → All IsAllowed xs
    → All IsAllowed (replace_rule id new xs)
unfolding replace_rule
replace_rule-All id new [] n h = tt
replace_rule-All id new (x ∷ xs) n h = elim (Bool-cases (x.id == id)) [
  | inl e ↦ rw e (n, replace_rule-All id new xs n h.1)
  | inr e ↦ rw e (h.0, replace_rule-All id new xs n h.1)
]

or_else-valid :
    {A : Type 0} (P : A → Type 0) (valid : A → Bool) (o : Option A) (a : A)
    → ((b : A) → valid b ≡ true → P b)
    → fails_test valid o ≡ false
    → P a
    → P (or_else o a)
or_else-valid P valid none a sound h v = v
or_else-valid P valid (some b) a sound h v = sound b (passed (valid b) h)
  where
    passed : (c : Bool) → not c ≡ false → c ≡ true
    passed true k = refl
    passed false k = cc

changed-IsAllowed :
    (w : World) (r : UpdateRequest) (scope : Option ℕ) (old : Rule)
    → is_update_refused r ≡ false
    → IsAllowed old
    → IsAllowed (changed w r scope old)
changed-IsAllowed w r scope old h (k, s, d) = (
  or_else-valid IsKind valid_alert_kind r.kind old.kind valid-IsKind (ground arith) k,
  or_else-valid IsScopeKind valid_scope_kind r.scope_kind old.scope_kind valid-IsScopeKind
      (ground arith) s,
  or_else-valid IsWindow valid_window_days r.window_days old.window_days valid-IsWindow
      (ground arith) d,
)

IsAllowed-keep : (p : Rule → Bool) (xs : List Rule) → All IsAllowed xs → All IsAllowed (keep p xs)
IsAllowed-keep p [] h = tt
IsAllowed-keep p (x ∷ xs) h = elim (Bool-cases (p x)) [
  | inl e ↦ rw e (h.0, IsAllowed-keep p xs h.1)
  | inr e ↦ rw e (IsAllowed-keep p xs h.1)
]

module _ (w : World) (rules : List Rule) (allowed : All IsAllowed rules) where
  with_tenant-All :
      (r : CreateRequest) (scope : Option ℕ) (tenant : Load ℕ)
      → is_refused r ≡ false
      → All IsAllowed (with_tenant w rules r scope tenant).0
  with_tenant-All r scope no_rows h = allowed
  with_tenant-All r scope load_error h = allowed
  with_tenant-All r scope (found tenant) h = elim (Bool-cases w.query_fails) [
    | inl f ↦ rw f allowed
    | inr f ↦ rw f (
      valid-IsAllowed (lacks_field r) (valid_alert_kind r.kind) (valid_scope_kind r.scope_kind)
          (valid_window_days r.window_days) (valid-IsKind r.kind) (valid-IsScopeKind r.scope_kind)
          (valid-IsWindow r.window_days) h,
      allowed,
    )
  ]

  with_scope-All :
      (r : CreateRequest) (scope : Option (Option ℕ))
      → is_refused r ≡ false
      → All IsAllowed (with_scope w rules r scope).0
  with_scope-All r none h = allowed
  with_scope-All r (some scope) h = with_tenant-All r scope _ h

  create-All : (r : Option CreateRequest) → All IsAllowed (handle_create_alert_rule w rules r).0
  unfolding handle_create_alert_rule
  create-All none = allowed
  create-All (some r) = elim (Bool-cases (is_refused r)) [
    | inl e ↦ rw e allowed
    | inr e ↦ rw e (with_scope-All r (scope_of w.parse_uuid r.scope_id) e)
  ]

  with_rule-All :
      (r : UpdateRequest) (id : ℕ) (scope : Option ℕ) (old : Option Rule)
      → is_update_refused r ≡ false
      → find_rule id rules ≡ old
      → All IsAllowed (with_rule w rules r id scope old).0
  with_rule-All r id scope none h e = allowed
  with_rule-All r id scope (some old) h e =
      replace_rule-All id (changed w r scope old) rules
        (changed-IsAllowed w r scope old h (find_rule-IsAllowed id old rules allowed e)) allowed

  with_new_scope-All :
      (r : UpdateRequest) (id : ℕ) (scope : Option (Option ℕ))
      → is_update_refused r ≡ false
      → All IsAllowed (with_new_scope w rules r id scope).0
  with_new_scope-All r id none h = allowed
  with_new_scope-All r id (some scope) h = elim (Bool-cases w.query_fails) [
    | inl f ↦ rw f allowed
    | inr f ↦ rw f (with_rule-All r id scope (find_rule id rules) h refl)
  ]

  update-All :
      (id : Option ℕ) (r : Option UpdateRequest) → All IsAllowed (update_rule w rules id r).0
  update-All none r = allowed
  update-All (some id) none = allowed
  update-All (some id) (some r) = elim (Bool-cases (is_update_refused r)) [
    | inl e ↦ rw e allowed
    | inr e ↦ rw e (with_new_scope-All r id (scope_of w.parse_uuid r.scope_id) e)
  ]

  delete-All : (id : Option ℕ) → All IsAllowed (delete_rule w rules id).0
  delete-All none = allowed
  delete-All (some id) = elim (Bool-cases w.query_fails) [
    | inl f ↦ rw f allowed
    | inr f ↦ rw f (IsAllowed-keep (λ x. not (x.id == id)) rules allowed)
  ]

step-All :
    (rules : List Rule) (o : Operation) → All IsAllowed rules → All IsAllowed (step rules o).0
unfolding handle_update_alert_rule handle_delete_alert_rule
step-All rules (create w r) h = create-All w rules h r
step-All rules (update w id r) h = update-All w rules h (w.parse_uuid id) r
step-All rules (delete w id) h = delete-All w rules h (w.parse_uuid id)

-- Any sequence of creations, updates and deletions of alert rules, good or bad, from rules within the
-- table's constraints, leads to rules within them: of one of the kinds tier_regression, tier_change and
-- predicted_regression, for a project, a team or the tenant, and for a window of 7, 30 or 90 days.
pub run-IsAllowed :
    (rules : List Rule) (os : List Operation) → All IsAllowed rules → All IsAllowed (run rules os)
run-IsAllowed rules [] h = h
run-IsAllowed rules (o ∷ os) h = run-IsAllowed (step rules o).0 os (step-All rules o h)

abbrev pub is_error : Reply → Bool
is_error (error n) = true
is_error _ = false

module _ (w : World) (rules : List Rule) where
  -- A reply that is an error leaves the rules.
  Leaves : List Rule × Reply → Type 0
  Leaves (after, reply) = is_error reply ≡ true → after ≡ rules

  with_tenant-Leaves :
      (r : CreateRequest) (scope : Option ℕ) (t : Load ℕ) → Leaves (with_tenant w rules r scope t)
  unfolding Leaves
  with_tenant-Leaves r scope no_rows = λ _. refl
  with_tenant-Leaves r scope load_error = λ _. refl
  with_tenant-Leaves r scope (found t) = elim (Bool-cases w.query_fails) [
    | inl f ↦ rw f (λ _. refl)
    | inr f ↦ rw f (λ k. cc)
  ]

  with_scope-Leaves :
      (r : CreateRequest) (scope : Option (Option ℕ)) → Leaves (with_scope w rules r scope)
  unfolding Leaves
  with_scope-Leaves r none = λ _. refl
  with_scope-Leaves r (some scope) = with_tenant-Leaves r scope _

  create-Leaves : (r : Option CreateRequest) → Leaves (handle_create_alert_rule w rules r)
  unfolding handle_create_alert_rule Leaves
  create-Leaves none = λ _. refl
  create-Leaves (some r) = elim (Bool-cases (is_refused r)) [
    | inl e ↦ rw e (λ _. refl)
    | inr e ↦ rw e (with_scope-Leaves r (scope_of w.parse_uuid r.scope_id))
  ]

  with_rule-Leaves :
      (r : UpdateRequest) (id : ℕ) (scope : Option ℕ) (old : Option Rule)
      → Leaves (with_rule w rules r id scope old)
  unfolding Leaves
  with_rule-Leaves r id scope none = λ _. refl
  with_rule-Leaves r id scope (some old) = λ k. cc

  with_new_scope-Leaves :
      (r : UpdateRequest) (id : ℕ) (scope : Option (Option ℕ))
      → Leaves (with_new_scope w rules r id scope)
  unfolding Leaves
  with_new_scope-Leaves r id none = λ _. refl
  with_new_scope-Leaves r id (some scope) = elim (Bool-cases w.query_fails) [
    | inl f ↦ rw f (λ _. refl)
    | inr f ↦ rw f (with_rule-Leaves r id scope (find_rule id rules))
  ]

  update-Leaves : (id : Option ℕ) (r : Option UpdateRequest) → Leaves (update_rule w rules id r)
  unfolding Leaves
  update-Leaves none r = λ _. refl
  update-Leaves (some id) none = λ _. refl
  update-Leaves (some id) (some r) = elim (Bool-cases (is_update_refused r)) [
    | inl e ↦ rw e (λ _. refl)
    | inr e ↦ rw e (with_new_scope-Leaves r id (scope_of w.parse_uuid r.scope_id))
  ]

  delete-Leaves : (id : Option ℕ) → Leaves (delete_rule w rules id)
  unfolding Leaves
  delete-Leaves none = λ _. refl
  delete-Leaves (some id) = elim (Bool-cases w.query_fails) [
    | inl f ↦ rw f (λ _. refl)
    | inr f ↦ rw f (λ k. cc)
  ]

-- A creation, an update or a deletion that is answered with an error, whichever it is, leaves the
-- alert rules as they were.
pub step_error :
    (rules : List Rule) (o : Operation)
    → is_error (step rules o).1 ≡ true
    → (step rules o).0 ≡ rules
unfolding handle_update_alert_rule handle_delete_alert_rule Leaves
step_error rules (create w r) h = create-Leaves w rules r h
step_error rules (update w id r) h = update-Leaves w rules (w.parse_uuid id) r h
step_error rules (delete w id) h = delete-Leaves w rules (w.parse_uuid id) h
