-- ===== src/Collector/Gitlab.antt =====
-- backend/internal/collector/gitlab/client.go: the client of GitLab, with its pages. A service is a
-- function of the number of the call and the request, so that it may answer otherwise each time. A
-- request is its path, the project's id as it stands before `url.PathEscape`, and the parameters of
-- its query before their encoding. `rfc3339` stands for the format of an instant. A list takes fuel,
-- one unit for a page: `none` means that it ran out.
pub mod Rows
pub mod Tables
pub mod Loops
pub mod Pages
pub mod Collect
mod Tests
use dora_metrics_app.Base.{
  ℕ, zero, suc, ◌+◌, ◌-◌, ◌*◌, String, Bool, true, false, not, ◌&&◌, ◌||◌, Option, none, some, List,
  [], ◌∷◌, ◌++◌, leb, ltb, ◌==◌, if◌then◌else◌, take, str_eq,
}
use dora_metrics_app.Base.Int.{ℤ, pos, negsuc, leb_ℤ, ltb_ℤ, two_63}
use dora_metrics_app.Base.Text.{Text, codes}
use dora_metrics_app.Calculator.Digits.{itoa}
use dora_metrics_app.Collector.Jobs.{Commit}

-- What is read of the environments, deployments, merge requests and commits.
pub record User : Type 0 where
  pub username : String

pub record Environment : Type 0 where
  pub id : ℕ
  pub name : String

pub record Deployable : Type 0 where
  pub started_at : Option ℤ
  pub user : Option User

pub record Deployment : Type 0 where
  pub id : ℕ
  pub ref : String
  pub sha : String
  pub status : String
  pub finished_at : Option ℤ
  pub environment : Environment
  pub deployable : Option Deployable
  pub user : Option User

pub record Member : Type 0 where
  pub id : ℕ
  pub username : String
  pub name : String
  pub public_email : String

pub record MergeRequest : Type 0 where
  pub id : ℕ
  pub iid : ℕ
  pub title : String
  pub target_branch : String
  pub source_branch : String
  pub merged_at : Option ℤ
  pub merge_commit_sha : Option String
  pub squash_commit_sha : Option String
  pub web_url : String
  pub labels : List String
  pub author : Option User
  pub additions : Option ℤ
  pub deletions : Option ℤ

pub data Value : Type 0 where
  text : Text → Value
  number : ℤ → Value

pub record Request : Type 0 where
  pub path : Text
  pub query : List (Text × Value)

pub data ClientError : Type 0 where
  not_built not_sent bad_response : ClientError
  api_error : ℕ → Text → ClientError

pub data Result {ℓ} (A : Type ℓ) : Type ℓ where
  ok : A → Result A
  err : ClientError → Result A

-- What a call comes to: no request, no response, or a response with its status, its body, what the
-- body decodes to, and the header X-Next-Page, empty if there is none.
pub data Reply {ℓ} (A : Type ℓ) : Type ℓ where
  unbuilt unsent : Reply A
  answered : ℕ → Text → Option A → Text → Reply A

abbrev pub digits_value : ℕ → Text → Option ℕ
digits_value n [] = some n
digits_value n (c ∷ s) =
    let rest = digits_value (10 * n + (c - 48)) s in if leb 48 c && leb c 57 then rest else none

abbrev pub unsigned : Text → Option ℕ
unsigned [] = none
unsigned (c ∷ s) = digits_value 0 (c ∷ s)

abbrev positive : Option ℕ → Option ℤ
positive none = none
positive (some n) = if ltb n two_63 then some (pos n) else none

abbrev negative : Option ℕ → Option ℤ
negative none = none
negative (some zero) = some (pos zero)
negative (some (suc n)) = if ltb n two_63 then some (negsuc n) else none

-- `strconv.Atoi`
unfoldable pub atoi : Text → Option ℤ
atoi [] = none
atoi (c ∷ s) =
    if c == 43
    then positive (unsigned s)
    else if c == 45
    then negative (unsigned s)
    else positive (unsigned (c ∷ s))

abbrev pub next_page_of : Option ℤ → ℤ
next_page_of none = pos 0
next_page_of (some n) = n

abbrev pub message_limit : ℕ
message_limit = 4096

-- `doGetJSONPaged`: what was decoded with the next page.
unfoldable pub do_get_json_paged {ℓ} : {A : Type ℓ} → Reply A → Result (A × ℤ)
unfolding atoi
do_get_json_paged unbuilt = err not_built
do_get_json_paged unsent = err not_sent
do_get_json_paged (answered status body decoded header) =
    if ltb status 200 || leb 300 status
    then err (api_error status (take message_limit body))
    else elim decoded [ none ↦ err bad_response | some a ↦ ok (a, next_page_of (atoi header)) ]

abbrev without_page {ℓ} : {A : Type ℓ} → Result (A × ℤ) → Result A
without_page (ok (a, n)) = ok a
without_page (err e) = err e

unfoldable pub do_get_json {ℓ} : {A : Type ℓ} → Reply A → Result A
unfolding do_get_json_paged
do_get_json r = without_page (do_get_json_paged r)

abbrev pub Service {ℓ} : Type ℓ → Type ℓ
Service A = ℕ → Request → Reply A

abbrev pub is_zero : ℤ → Bool
is_zero (pos zero) = true
is_zero (pos (suc n)) = false
is_zero (negsuc n) = false

-- The end of a round of the loop, `rest` being the rounds after it.
abbrev pub after_page {ℓ} :
    {A : Type ℓ}
    → (ℤ → List A → Option (Result (List A)))
    → List A
    → Result (List A × ℤ)
    → Option (Result (List A))
after_page rest all (err e) = some (err e)
after_page rest all (ok (batch, next_page)) =
    let more = rest next_page (all ++ batch) in
    if is_zero next_page then some (ok (all ++ batch)) else more

module _ {ℓ} {A : Type ℓ} (service : Service (List A)) (request : ℤ → Request) where
  unfoldable pub pages_from : ℕ → ℕ → ℤ → List A → Option (Result (List A))
  unfolding do_get_json_paged
  pages_from zero call page all = none
  pages_from (suc fuel) call page all =
      after_page (pages_from fuel (suc call)) all (do_get_json_paged (service call (request page)))

  -- The loop of each list, from the first page on.
  unfoldable pub list_all : ℕ → Option (Result (List A))
  unfolding pages_from
  list_all fuel = pages_from fuel 0 (pos 1) []

abbrev pub of_project : String → String → Text
of_project project rest = codes "/api/v4/projects/" ++ (codes project ++ codes rest)

abbrev pub page_parameter : ℤ → List (Text × Value)
page_parameter page = (codes "page", number page) ∷ []

unfoldable pub list_environments : Service (List Environment) → String → Result (List Environment)
unfolding do_get_json
list_environments service project = do_get_json (
    service 0 (record {
      path = of_project project "/environments";
      query = (codes "per_page", number (pos 100)) ∷ [];
    }))

unfoldable pub list_project_members :
    Service (List Member) → ℕ → String → Option (Result (List Member))
unfolding list_all
list_project_members service fuel project =
    list_all service
      (λ page. record {
        path = of_project project "/members/all";
        query = (codes "per_page", number (pos 100)) ∷ page_parameter page;
      })
      fuel

-- More than 100 or none are 100.
abbrev pub per_page : ℤ → ℤ
per_page n = if leb_ℤ n (pos 0) || ltb_ℤ (pos 100) n then pos 100 else n

abbrev pub optional : String → String → List (Text × Value)
optional key value = if str_eq value "" then [] else (codes key, text (codes value)) ∷ []

-- `updated_after`, where the instant is not the zero of `time.Time`.
abbrev pub updated_after : (ℤ → Text) → Option ℤ → List (Text × Value)
updated_after rfc3339 none = []
updated_after rfc3339 (some t) = (codes "updated_after", text (rfc3339 t)) ∷ []

abbrev pub ordered : ℤ → List (Text × Value)
ordered n =
    (codes "per_page", number (per_page n))
    ∷ (codes "order_by", text (codes "updated_at"))
    ∷ (codes "sort", text (codes "asc"))
    ∷ []

pub record ListDeploymentsOpts : Type 0 where
  pub environment : String
  pub status : String
  pub updated_after : Option ℤ
  pub per_page : ℤ

pub record ListMergeRequestsOpts : Type 0 where
  pub state : String
  pub target_branch : String
  pub updated_after : Option ℤ
  pub per_page : ℤ

module _ (rfc3339 : ℤ → Text) where
  abbrev pub deployments_request : String → ListDeploymentsOpts → ℤ → Request
  deployments_request project opts page = record {
    path = of_project project "/deployments";
    query =
        ordered opts.per_page
        ++ (optional "environment" opts.environment
            ++ (optional "status" opts.status
                ++ (updated_after rfc3339 opts.updated_after ++ page_parameter page)));
  }

  unfoldable pub list_deployments :
      Service (List Deployment)
      → ℕ
      → String
      → ListDeploymentsOpts
      → Option (Result (List Deployment))
  unfolding list_all
  list_deployments service fuel project opts =
      list_all service (deployments_request project opts) fuel

  abbrev pub merge_requests_request : String → ListMergeRequestsOpts → ℤ → Request
  merge_requests_request project opts page = record {
    path = of_project project "/merge_requests";
    query =
        ordered opts.per_page
        ++ (optional "state" opts.state
            ++ (optional "target_branch" opts.target_branch
                ++ (updated_after rfc3339 opts.updated_after ++ page_parameter page)));
  }

  unfoldable pub list_merge_requests :
      Service (List MergeRequest)
      → ℕ
      → String
      → ListMergeRequestsOpts
      → Option (Result (List MergeRequest))
  unfolding list_all
  list_merge_requests service fuel project opts =
      list_all service (merge_requests_request project opts) fuel

abbrev decimal : ℕ → Text
decimal n = elim (itoa (pos n)) [ none ↦ [] | some t ↦ t ]

unfoldable pub list_mr_commits :
    Service (List Commit) → ℕ → String → ℕ → Option (Result (List Commit))
unfolding list_all itoa
list_mr_commits service fuel project mr_iid =
    list_all service
      (λ page. record {
        path = of_project project "/merge_requests/" ++ (decimal mr_iid ++ codes "/commits");
        query = (codes "per_page", number (pos 100)) ∷ page_parameter page;
      })
      fuel
