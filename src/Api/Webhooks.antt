-- ===== src/Api/Webhooks.antt =====
-- backend/internal/api/webhooks.go: the webhooks of GitLab and Jira. `hmac` stands for HMAC-SHA256 of a
-- secret and a body; a body comes with what it unmarshals to. What fails to be stored or enqueued is
-- logged and skipped.
pub mod Checked
mod Tests
use dora_metrics_app.Base.{
  ℕ, ◌+◌, ◌-◌, ◌*◌, Bool, true, false, not, ◌&&◌, ◌||◌, Option, none, some, List, [], ◌∷◌, ◌++◌,
  leb, ◌==◌, if◌then◌else◌,
}
use dora_metrics_app.Base.Text.{Text, codes, same, strip_prefix}
use dora_metrics_app.Collector.Dispatch.{Load, found, no_rows, load_error}
use dora_metrics_app.Collector.Jobs.{CollectTask, collect_gitlab, collect_jira}

pub record RawEvent : Type 0 where
  pub tenant_id : ℕ
  pub source : Text
  pub kind : Text
  pub external_id : Option Text
  pub payload : Text

abbrev pub str_ptr : Text → Option Text
str_ptr s = if same s [] then none else some s

-- The table of raw events, newest first, and the queue, in order.
pub record State : Type 0 where
  pub raw_events : List RawEvent
  pub queue : List CollectTask

-- The status of the response.
pub data Status : Type 0 where
  accepted unauthorized bad_body : Status

pub record Project : Type 0 where
  pub id : ℕ
  pub tenant_id : ℕ

-- What can fail: the insertion of an event of a tenant, and the enqueueing of a project.
pub record Faults : Type 0 where
  pub insert : ℕ → Bool
  pub enqueue : ℕ → Bool

module _ (faults : Faults) where
  abbrev pub persist_raw_event : State → RawEvent → State
  persist_raw_event s e =
      if faults.insert e.tenant_id then s else record s { raw_events = e ∷ s.raw_events }

  abbrev pub enqueue : State → ℕ → CollectTask → State
  enqueue s project t = if faults.enqueue project then s else record s { queue = s.queue ++ t ∷ [] }

-- A request of GitLab: the body is none where it cannot be read; `project` is the id of the payload,
-- 0 if there is none, `external_id` its digits.
pub record GitlabRequest : Type 0 where
  pub token : Text
  pub event : Text
  pub body : Option Text
  pub project : ℕ
  pub external_id : Text

unfoldable pub is_collectable : Text → Bool
is_collectable event =
    if same event (codes "Merge Request Hook") then true else same event (codes "Deployment Hook")

abbrev pub known : Load Project → Option Project
known (found p) = some p
known _ = none

module _ (faults : Faults) (webhook_token : Text) (lookup : ℕ → Load Project) where
  abbrev pub gitlab_project : GitlabRequest → Option Project
  gitlab_project r = if r.project == 0 then none else known (lookup r.project)

  abbrev pub gitlab_event : GitlabRequest → Text → Project → RawEvent
  gitlab_event r body p = record {
    tenant_id = p.tenant_id;
    source = codes "gitlab_webhook";
    kind = r.event;
    external_id = str_ptr r.external_id;
    payload = body;
  }

  abbrev pub for_project : State → GitlabRequest → Text → Option Project → State
  for_project s r body none = s
  for_project s r body (some p) =
      let s' = persist_raw_event faults s (gitlab_event r body p) in
      if is_collectable r.event then enqueue faults s' p.id (collect_gitlab p.id 0) else s'

  unfoldable pub handle_gitlab_webhook : State → GitlabRequest → State × Status
  unfolding is_collectable
  handle_gitlab_webhook s r =
      if same webhook_token [] || not (same r.token webhook_token)
      then (s, unauthorized)
      else elim r.body [
        | none ↦ (s, bad_body)
        | some body ↦ (for_project s r body (gitlab_project r), accepted)
      ]

-- `hex.DecodeString`
abbrev pub hex_digit : ℕ → Option ℕ
hex_digit c =
    if leb b'0' c && leb c b'9'
    then some (c - b'0')
    else if leb b'a' c && leb c b'f'
    then some (c - b'a' + 10)
    else if leb b'A' c && leb c b'F'
    then some (c - b'A' + 10)
    else none

abbrev pub hex_byte : Option ℕ → Option ℕ → Option Text → Option Text
hex_byte (some h) (some l) (some rest) = some ((16 * h + l) ∷ rest)
hex_byte _ _ _ = none

unfoldable pub decode_hex : Text → Option Text
decode_hex [] = some []
decode_hex (c ∷ []) = none
decode_hex (c ∷ d ∷ s) = hex_byte (hex_digit c) (hex_digit d) (decode_hex s)

module _ (hmac : Text → Text → Text) where
  abbrev pub matches_mac : Text → Text → Option Text → Bool
  matches_mac secret body none = false
  matches_mac secret body (some got) = same got (hmac secret body)

  abbrev pub of_digits : Text → Text → Option Text → Bool
  of_digits secret body none = false
  of_digits secret body (some digits) = matches_mac secret body (decode_hex digits)

  unfoldable pub verify_jira_hmac : Text → Text → Text → Bool
  verify_jira_hmac body header secret =
      of_digits secret body (strip_prefix (codes "sha256=") header)

-- A request of Jira; `project_key` is empty where the payload has none.
pub record JiraRequest : Type 0 where
  pub signature : Text
  pub body : Option Text
  pub event : Text
  pub issue_key : Text
  pub project_key : Text

module _ (faults : Faults) where
  abbrev pub jira_event : JiraRequest → Text → Project → RawEvent
  jira_event r body p = record {
    tenant_id = p.tenant_id;
    source = codes "jira_webhook";
    kind = r.event;
    external_id = str_ptr r.issue_key;
    payload = body;
  }

  abbrev pub for_jira : State → JiraRequest → Text → Project → State
  for_jira s r body p =
      enqueue faults (persist_raw_event faults s (jira_event r body p)) p.id (collect_jira p.id 0)

  unfoldable pub for_jira_projects : State → JiraRequest → Text → List Project → State
  for_jira_projects s r body [] = s
  for_jira_projects s r body (p ∷ ps) = for_jira_projects (for_jira s r body p) r body ps

  -- The active projects with a Jira key, or none where the query fails.
  module _ (hmac : Text → Text → Text) (webhook_secret : Text)
      (list_projects : Text → Option (List Project)) where
    abbrev pub of_projects : State → JiraRequest → Text → Option (List Project) → State
    of_projects s r body none = s
    of_projects s r body (some ps) = for_jira_projects s r body ps

    abbrev pub verified : State → JiraRequest → Text → State
    verified s r body =
        if same r.project_key [] then s else of_projects s r body (list_projects r.project_key)

    abbrev pub of_jira_body : State → JiraRequest → Option Text → State × Status
    of_jira_body s r none = (s, bad_body)
    of_jira_body s r (some body) =
        if not (same webhook_secret [])
          && not (verify_jira_hmac hmac body r.signature webhook_secret)
        then (s, unauthorized)
        else (verified s r body, accepted)

    unfoldable pub handle_jira_webhook : State → JiraRequest → State × Status
    unfolding for_jira_projects
    handle_jira_webhook s r = of_jira_body s r r.body
