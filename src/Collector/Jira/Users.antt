-- ===== src/Collector/Jira/Users.antt =====
-- backend/internal/collector/jira/source.go: `SearchUsers`, page by page. It takes fuel as the search
-- of issues does.
pub mod Directory
use dora_metrics_app.Base.{
  ℕ, zero, suc, ◌+◌, Bool, true, false, not, ◌&&◌, ◌||◌, Option, none, some, List, [], ◌∷◌, ◌++◌,
  ltb, if◌then◌else◌, length,
}
use dora_metrics_app.Base.Int.{ℤ}
use dora_metrics_app.Base.Text.{Text, codes, same}
use dora_metrics_app.Collector.Jira.{
  Result, ok, err, bad_issue, Reply, received, Progress, more, full, failed, is_full, page_size,
}

pub record User : Type 0 where
  pub account_id : Text
  pub account_type : Text
  pub display_name : Text
  pub email_address : Text
  pub active : Bool

-- The query of one page of users.
pub record UsersRequest : Type 0 where
  pub start_at : ℕ
  pub max_results : ℕ
  pub query : Text

abbrev pub UserService : Type 0
UserService = ℕ → UsersRequest → Reply (List User)

unfoldable pub is_skipped : User → Bool
is_skipped u =
    (not (same u.account_type []) && not (same u.account_type (codes "atlassian"))) || not u.active

abbrev pub after_users :
    (List User → Option (Result (List User)))
    → List User
    → Progress User
    → Option (Result (List User))
after_users rest batch failed = some (err bad_issue)
after_users rest batch (full out) = some (ok out)
after_users rest batch (more out) =
    let continue = rest out in if ltb (length batch) page_size then some (ok out) else continue

abbrev pub users_request : Text → ℕ → UsersRequest
users_request query start = record { start_at = start; max_results = page_size; query = query }

module _ (limit : ℤ) where
  unfoldable pub take_users : List User → List User → Progress User
  unfolding is_skipped
  take_users out [] = more out
  take_users out (u ∷ us) = elim (is_skipped u) [
    | true ↦ take_users out us
    | false ↦
        let rest = take_users (out ++ u ∷ []) us in
        if is_full limit (out ++ u ∷ []) then full (out ++ u ∷ []) else rest
  ]

  abbrev pub after_batch :
      (List User → Option (Result (List User)))
      → List User
      → Result (List User)
      → Option (Result (List User))
  after_batch rest out (err e) = some (err e)
  after_batch rest out (ok batch) = after_users rest batch (take_users out batch)

  module _ (jira : UserService) (query : Text) where
    unfoldable pub users_from : ℕ → ℕ → ℕ → List User → Option (Result (List User))
    unfolding take_users received
    users_from zero call start out = none
    users_from (suc fuel) call start out =
        after_batch (users_from fuel (suc call) (start + page_size)) out
          (received (jira call (users_request query start)))

-- `RESTSource.SearchUsers`
unfoldable pub search_users : UserService → ℕ → Text → ℤ → Option (Result (List User))
unfolding users_from
search_users jira fuel query limit = users_from limit jira query fuel 0 0 []
