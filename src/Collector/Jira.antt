-- ===== src/Collector/Jira.antt =====
-- backend/internal/collector/jira/source.go: the REST client of Jira, with its pages. The service is a
-- function of the number of the call and the request, so that it may answer otherwise each time;
-- `parse` stands for `time.Parse`, with the layout first. A search takes fuel, one unit for a page:
-- `none` means that it ran out.
pub mod Pages
pub mod Ends
pub mod Users
pub mod Mcp
pub mod Fallback
pub mod Collect
mod Tests
use dora_metrics_app.Base.{
  ℕ, zero, suc, ◌+◌, Bool, true, false, not, ◌&&◌, ◌||◌, Option, none, some, List, [], ◌∷◌, ◌++◌,
  leb, ltb, if◌then◌else◌, length, take, is_nil,
}
use dora_metrics_app.Base.Int.{ℤ, pos, ltb_ℤ, leb_ℤ}
use dora_metrics_app.Base.Text.{Text, codes, same}

pub record Issue : Type 0 where
  pub key : Text
  pub project_key : Text
  pub summary : Text
  pub issue_type : Text
  pub status : Text
  pub status_category : Text
  pub priority : Text
  pub labels : List Text
  pub created : ℤ
  pub resolved : Option ℤ
  pub raw : Text

-- What `json.Unmarshal` fills in; `labels` is none for nil.
pub record IssueShape : Type 0 where
  pub key : Text
  pub summary : Text
  pub project_key : Text
  pub issue_type : Text
  pub status : Text
  pub status_category : Text
  pub priority : Text
  pub labels : Option (List Text)
  pub created : Text
  pub resolution_date : Option Text

-- An item of a page: its bytes, and what they unmarshal to, if they do.
pub record RawIssue : Type 0 where
  pub bytes : Text
  pub shape : Option IssueShape

pub data McpError : Type 0 where
  not_built not_sent bad_envelope bad_result empty_content : McpError
  http_error : ℕ → Text → McpError
  rpc_error : ℤ → Text → McpError
  tool_error : Text → McpError

pub data SearchError : Type 0 where
  not_built not_sent bad_response bad_issue : SearchError
  api_error : ℕ → Text → SearchError
  mcp_failed : McpError → SearchError

pub data Result {ℓ} (A : Type ℓ) : Type ℓ where
  ok : A → Result A
  err : SearchError → Result A

-- What a call comes to: no request, no response, or a response with its status, its body and what
-- the body decodes to.
pub data Reply {ℓ} (A : Type ℓ) : Type ℓ where
  unbuilt unsent : Reply A
  answered : ℕ → Text → Option A → Reply A

abbrev pub is_success : ℕ → Bool
is_success status = leb 200 status && ltb status 300

-- At most 4 KB of the body are kept for a message.
abbrev pub message_limit : ℕ
message_limit = 4096

-- The request, the transport, the status and the decoding, as the three calls do them.
unfoldable pub received {ℓ} : {A : Type ℓ} → Reply A → Result A
received unbuilt = err not_built
received unsent = err not_sent
received (answered status body decoded) =
    if not (is_success status)
    then err (api_error status (take message_limit body))
    else elim decoded [ none ↦ err bad_response | some a ↦ ok a ]

abbrev pub jira_layout : Text
jira_layout = codes "2006-01-02T15:04:05.000-0700"

abbrev pub rfc3339 : Text
rfc3339 = codes "2006-01-02T15:04:05Z07:00"

module _ (parse : Text → Text → Option ℤ) where
  unfoldable pub parse_jira_time : Text → Option ℤ
  parse_jira_time s = elim (parse jira_layout s) [ some t ↦ some t | none ↦ parse rfc3339 s ]

  abbrev pub resolved_at : Option Text → Option ℤ
  resolved_at none = none
  resolved_at (some s) = if same s [] then none else parse_jira_time s

  abbrev pub issue_of : Text → IssueShape → ℤ → Issue
  issue_of bytes s created = record {
    key = s.key;
    project_key = s.project_key;
    summary = s.summary;
    issue_type = s.issue_type;
    status = s.status;
    status_category = s.status_category;
    priority = s.priority;
    labels = elim s.labels [ none ↦ [] | some l ↦ l ];
    created = created;
    resolved = resolved_at s.resolution_date;
    raw = bytes;
  }

  unfoldable pub decode_issue : RawIssue → Option Issue
  unfolding parse_jira_time
  decode_issue r = elim r.shape [
    | none ↦ none
    | some s ↦ elim (parse_jira_time s.created) [
      | none ↦ none
      | some created ↦ some (issue_of r.bytes s created)
    ]
  ]

-- limit > 0 && len(out) >= limit
abbrev pub is_full {ℓ} : {A : Type ℓ} → ℤ → List A → Bool
is_full limit out = ltb_ℤ (pos 0) limit && leb_ℤ limit (pos (length out))

-- Where the items of a page leave a search: it goes on, it is full, or it failed.
pub data Progress {ℓ} (A : Type ℓ) : Type ℓ where
  more : List A → Progress A
  full : List A → Progress A
  failed : Progress A

-- The request of one page.
pub record SearchRequest : Type 0 where
  pub jql : Text
  pub next_page_token : Text
  pub max_results : ℕ
  pub fields : List Text

pub record SearchResponse : Type 0 where
  pub next_page_token : Text
  pub is_last : Bool
  pub issues : List RawIssue

abbrev pub page_size : ℕ
page_size = 100

abbrev pub search_request : Text → Text → SearchRequest
search_request jql token = record {
  jql = jql;
  next_page_token = token;
  max_results = page_size;
  fields =
      codes "summary"
      ∷ codes "status"
      ∷ codes "priority"
      ∷ codes "issuetype"
      ∷ codes "labels"
      ∷ codes "created"
      ∷ codes "resolutiondate"
      ∷ codes "project"
      ∷ [];
}

abbrev pub IssueService : Type 0
IssueService = ℕ → SearchRequest → Reply SearchResponse

abbrev pub is_end : SearchResponse → Bool
is_end p = same p.next_page_token [] || (p.is_last || is_nil p.issues)

-- The end of a round, `rest` being the rounds after it.
abbrev pub after_page :
    (Text → List Issue → Option (Result (List Issue)))
    → SearchResponse
    → Progress Issue
    → Option (Result (List Issue))
after_page rest p failed = some (err bad_issue)
after_page rest p (full out) = some (ok out)
after_page rest p (more out) =
    let continue = rest p.next_page_token out in if is_end p then some (ok out) else continue

module _ (parse : Text → Text → Option ℤ) (limit : ℤ) where
  -- The loop over the issues of a page.
  unfoldable pub take_page : List Issue → List RawIssue → Progress Issue
  take_page out [] = more out
  take_page out (r ∷ rs) = elim (decode_issue parse r) [
    | none ↦ failed
    | some i ↦
        let rest = take_page (out ++ i ∷ []) rs in
        if is_full limit (out ++ i ∷ []) then full (out ++ i ∷ []) else rest
  ]

  abbrev pub after_reply :
      (Text → List Issue → Option (Result (List Issue)))
      → List Issue
      → Result SearchResponse
      → Option (Result (List Issue))
  after_reply rest out (err e) = some (err e)
  after_reply rest out (ok p) = after_page rest p (take_page out p.issues)

  module _ (jira : IssueService) (jql : Text) where
    unfoldable pub search_from : ℕ → ℕ → Text → List Issue → Option (Result (List Issue))
    unfolding take_page received
    search_from zero call token out = none
    search_from (suc fuel) call token out =
        after_reply (search_from fuel (suc call)) out
          (received (jira call (search_request jql token)))

-- `RESTSource.SearchIssues`
unfoldable pub search_issues :
    (Text → Text → Option ℤ) → IssueService → ℕ → Text → ℤ → Option (Result (List Issue))
unfolding search_from
search_issues parse jira fuel jql limit = search_from parse limit jira jql fuel 0 [] []
