-- ===== src/Api/Alerts.antt =====
-- backend/internal/api/alerts.go: the alert rules of a tenant and its recent events, with the queries that
-- the handlers run (backend/internal/storage/sql/queries) on lists of rows. `parse_uuid` stands for
-- `uuid.Parse`, `find` for the query for a tenant by its slug, and a body that does not decode is
-- none. A reply holds rows; their JSON has the same fields with ids and instants as texts.
pub mod Constraints
pub mod Rules
pub mod Recent
mod Tests
use dora_metrics_app.Base.{
  ℕ, String, Bool, true, false, not, ◌&&◌, ◌||◌, Option, none, some, List, [], ◌∷◌, keep, ◌==◌,
  take, str_eq, if◌then◌else◌,
}
use dora_metrics_app.Base.Int.{ℤ, pos, leb_ℤ, ltb_ℤ}
use dora_metrics_app.Base.Sort.{sort}
use dora_metrics_app.Base.Text.{Text, same, trim_space}
use dora_metrics_app.Collector.Dispatch.{Load, found, no_rows, load_error}
use dora_metrics_app.Collector.Gitlab.{atoi}

pub record Rule : Type 0 where
  pub id : ℕ
  pub tenant_id : ℕ
  pub name : Text
  pub enabled : Bool
  pub kind : String
  pub scope_kind : String
  pub scope_id : Option ℕ
  pub window_days : ℤ
  pub webhook_url : Text
  pub created_at : ℤ
  pub updated_at : ℤ

pub record CreateRequest : Type 0 where
  pub tenant : Text
  pub name : Text
  pub enabled : Option Bool
  pub kind : String
  pub scope_kind : String
  pub scope_id : Option Text
  pub window_days : ℤ
  pub webhook_url : Text

pub record UpdateRequest : Type 0 where
  pub name : Option Text
  pub enabled : Option Bool
  pub kind : Option String
  pub scope_kind : Option String
  pub scope_id : Option Text
  pub window_days : Option ℤ
  pub webhook_url : Option Text

-- The status of an error, or what is written.
pub data Reply : Type 0 where
  error : ℕ → Reply
  created : Rule → Reply
  updated : Rule → Reply
  no_content : Reply

unfoldable pub valid_alert_kind : String → Bool
valid_alert_kind k = str_eq k "tier_regression" || str_eq k "tier_change"

unfoldable pub valid_scope_kind : String → Bool
valid_scope_kind k = str_eq k "project" || (str_eq k "team" || str_eq k "tenant")

abbrev is_days : ℕ → Bool
is_days d = d == 7 || (d == 30 || d == 90)

unfoldable pub valid_window_days : ℤ → Bool
valid_window_days (pos d) = is_days d
valid_window_days d = false

-- An id that is not given or is empty is none; some none is one that does not parse.
abbrev pub scope_of : (Text → Option ℕ) → Option Text → Option (Option ℕ)
scope_of parse_uuid none = some none
scope_of parse_uuid (some s) =
    if same s [] then some none else elim (parse_uuid s) [ none ↦ none | some id ↦ some (some id) ]

abbrev pub or_else {ℓ} : {A : Type ℓ} → Option A → A → A
or_else none a = a
or_else (some b) a = b

abbrev pub or_null {ℓ} : {A : Type ℓ} → Option A → Option A → Option A
or_null none a = a
or_null (some b) a = some b

-- The rest of the world at one request: the clock, the id of a new row, and whether the query fails.
pub record World : Type 0 where
  pub parse_uuid : Text → Option ℕ
  pub find : Text → Load ℕ
  pub now : ℤ
  pub new_id : ℕ
  pub query_fails : Bool

abbrev pub rule_of : World → CreateRequest → Option ℕ → ℕ → Rule
rule_of w r scope tenant = record {
  id = w.new_id;
  tenant_id = tenant;
  name = trim_space r.name;
  enabled = or_else r.enabled true;
  kind = r.kind;
  scope_kind = r.scope_kind;
  scope_id = scope;
  window_days = r.window_days;
  webhook_url = trim_space r.webhook_url;
  created_at = w.now;
  updated_at = w.now;
}

-- The conditions on a new rule, before its tenant is looked up.
abbrev pub lacks_field : CreateRequest → Bool
lacks_field r =
    same (trim_space r.tenant) []
    || (same (trim_space r.name) [] || same (trim_space r.webhook_url) [])

abbrev pub is_refused : CreateRequest → Bool
is_refused r =
    lacks_field r
    || (not (valid_alert_kind r.kind)
        || (not (valid_scope_kind r.scope_kind) || not (valid_window_days r.window_days)))

abbrev pub with_tenant : World → List Rule → CreateRequest → Option ℕ → Load ℕ → List Rule × Reply
with_tenant w rules r scope no_rows = (rules, error 404)
with_tenant w rules r scope load_error = (rules, error 500)
with_tenant w rules r scope (found tenant) =
    if w.query_fails
    then (rules, error 500)
    else (rule_of w r scope tenant ∷ rules, created (rule_of w r scope tenant))

abbrev pub with_scope : World → List Rule → CreateRequest → Option (Option ℕ) → List Rule × Reply
with_scope w rules r none = (rules, error 400)
with_scope w rules r (some scope) = with_tenant w rules r scope (w.find (trim_space r.tenant))

unfoldable pub handle_create_alert_rule :
    World → List Rule → Option CreateRequest → List Rule × Reply
unfolding valid_alert_kind valid_scope_kind valid_window_days trim_space
handle_create_alert_rule w rules none = (rules, error 400)
handle_create_alert_rule w rules (some r) =
    if is_refused r
    then (rules, error 400)
    else with_scope w rules r (scope_of w.parse_uuid r.scope_id)

-- `COALESCE` of each column.
abbrev pub changed : World → UpdateRequest → Option ℕ → Rule → Rule
changed w r scope old = record old {
  name = or_else r.name old.name;
  enabled = or_else r.enabled old.enabled;
  kind = or_else r.kind old.kind;
  scope_kind = or_else r.scope_kind old.scope_kind;
  scope_id = or_null scope old.scope_id;
  window_days = or_else r.window_days old.window_days;
  webhook_url = or_else r.webhook_url old.webhook_url;
  updated_at = w.now;
}

unfoldable pub find_rule : ℕ → List Rule → Option Rule
find_rule id [] = none
find_rule id (x ∷ xs) = let rest = find_rule id xs in if x.id == id then some x else rest

unfoldable pub replace_rule : ℕ → Rule → List Rule → List Rule
replace_rule id new [] = []
replace_rule id new (x ∷ xs) = (if x.id == id then new else x) ∷ replace_rule id new xs

abbrev pub fails_test : {A : Type 0} → (A → Bool) → Option A → Bool
fails_test valid none = false
fails_test valid (some a) = not (valid a)

abbrev pub is_update_refused : UpdateRequest → Bool
is_update_refused r =
    fails_test valid_alert_kind r.kind
    || (fails_test valid_scope_kind r.scope_kind || fails_test valid_window_days r.window_days)

-- The ids are the key of the table.
abbrev pub with_rule :
    World → List Rule → UpdateRequest → ℕ → Option ℕ → Option Rule → List Rule × Reply
with_rule w rules r id scope none = (rules, error 404)
with_rule w rules r id scope (some old) =
    (replace_rule id (changed w r scope old) rules, updated (changed w r scope old))

abbrev pub with_new_scope :
    World → List Rule → UpdateRequest → ℕ → Option (Option ℕ) → List Rule × Reply
with_new_scope w rules r id none = (rules, error 400)
with_new_scope w rules r id (some scope) =
    if w.query_fails then (rules, error 500) else with_rule w rules r id scope (find_rule id rules)

abbrev pub update_rule : World → List Rule → Option ℕ → Option UpdateRequest → List Rule × Reply
update_rule w rules none r = (rules, error 400)
update_rule w rules (some id) none = (rules, error 400)
update_rule w rules (some id) (some r) =
    if is_update_refused r
    then (rules, error 400)
    else with_new_scope w rules r id (scope_of w.parse_uuid r.scope_id)

unfoldable pub handle_update_alert_rule :
    World → List Rule → Text → Option UpdateRequest → List Rule × Reply
unfolding valid_alert_kind valid_scope_kind valid_window_days find_rule replace_rule
handle_update_alert_rule w rules id r = update_rule w rules (w.parse_uuid id) r

abbrev pub delete_rule : World → List Rule → Option ℕ → List Rule × Reply
delete_rule w rules none = (rules, error 400)
delete_rule w rules (some id) =
    if w.query_fails then (rules, error 500) else (keep (λ x. not (x.id == id)) rules, no_content)

unfoldable pub handle_delete_alert_rule : World → List Rule → Text → List Rule × Reply
handle_delete_alert_rule w rules id = delete_rule w rules (w.parse_uuid id)

-- `ListAlertRulesByTenant`, the latest first.
unfoldable pub list_alert_rules : List Rule → ℕ → List Rule
unfolding sort
list_alert_rules rules tenant =
    sort (λ a b. leb_ℤ b.created_at a.created_at) (keep (λ x. x.tenant_id == tenant) rules)

pub record AlertEvent : Type 0 where
  pub id : ℕ
  pub tenant_id : ℕ
  pub fired_at : ℤ

-- The limit of the query, 50 where the parameter is missing or out of bounds.
abbrev pub limit_in_bounds : Option ℤ → ℕ
limit_in_bounds (some (pos n)) = if ltb_ℤ (pos 0) (pos n) && leb_ℤ (pos n) (pos 500) then n else 50
limit_in_bounds _ = 50

unfoldable pub limit_of : Text → ℕ
unfolding atoi
limit_of v = if same v [] then 50 else limit_in_bounds (atoi v)

-- `ListRecentAlertEvents` with the limit of the request.
unfoldable pub list_alert_events : List AlertEvent → ℕ → Text → List AlertEvent
unfolding limit_of sort
list_alert_events events tenant limit =
    take (limit_of limit)
      (sort (λ a b. leb_ℤ b.fired_at a.fired_at) (keep (λ e. e.tenant_id == tenant) events))
