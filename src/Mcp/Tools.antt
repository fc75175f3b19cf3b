-- ===== src/Mcp/Tools.antt =====
-- backend/internal/mcp/server/tools.go, with `fetchMetricsByID` of server.go: the tools of the MCP
-- server. `Db` stands for the queries, `parse_uuid` for `uuid.Parse` with `String`, `Format` for what
-- `fmt` and `time` print. A `map[string]any` keeps the dynamic type of each value, since the code
-- asserts it.
pub mod Compare
pub mod Trend
use dora_metrics_app.Base.{
  ℕ, String, Bool, true, false, not, ◌&&◌, ◌||◌, Option, none, some, List, [], ◌∷◌, ◌++◌, ltb, ◌==◌,
  length, if◌then◌else◌,
}
use dora_metrics_app.Base.Int.{ℤ, pos, ltb_ℤ}
use dora_metrics_app.Base.Text.{Text, codes, same}
use dora_metrics_app.Base.Dict
use dora_metrics_app.Base.Dict.{Dict}
use dora_metrics_app.Collector.Dispatch.{Load, found, no_rows, load_error}

-- A value in an `any`, by its dynamic type; `F` is float64.
pub data Dynamic (F : Type 0) : Type 0 where
  text : Text → Dynamic F
  int : ℤ → Dynamic F
  int32 : ℤ → Dynamic F
  int64 : ℤ → Dynamic F
  int64_ptr : Option ℤ → Dynamic F
  float64 : F → Dynamic F

pub data ToolError : Type 0 where
  invalid_arguments exactly_one bad_project_id bad_team_id project_required query_failed : ToolError
  team_count : ℕ → ToolError
  not_found : Text → Text → ToolError
  bad_kind : Text → ToolError

pub data Outcome {ℓ} (A : Type ℓ) : Type ℓ where
  returned : A → Outcome A
  raised : ToolError → Outcome A

-- A row of metrics.metric_window; a numeric that is not valid is none.
pub record Window (F : Type 0) : Type 0 where
  pub computed_at : ℤ
  pub sample_size : ℤ
  pub lead_time_median_s : Option ℤ
  pub mttr_mean_s : Option ℤ
  pub classification : Option Text
  pub deployment_frequency : Option F
  pub change_failure_rate : Option F

-- The tenant of a project or a team, and the last window of a scope.
pub record Db (F : Type 0) : Type 0 where
  pub get_project : Text → Load Text
  pub get_team : Text → Load Text
  pub get_latest_metric_window : Text → Text → Text → ℤ → Load (Window F)

pub record Format (F : Type 0) : Type 0 where
  pub rfc3339 : ℤ → Text
  pub decimal : ℤ → Text
  pub fixed_2 : F → Text
  pub percent_1 : F → Text
  pub minutes : ℤ → Text
  pub hours : ℤ → Text
  pub days : ℤ → Text

abbrev pub effective : ℤ → ℤ
effective (pos n) = if n == 0 then pos 30 else pos n
effective d = d

module _ {F : Type 0} where
  abbrev pub put_some : Dict (Dynamic F) → Text → Option (Dynamic F) → Dict (Dynamic F)
  put_some d k none = d
  put_some d k (some v) = Dict.put d k v

  abbrev pub boxed : {A : Type 0} → (A → Dynamic F) → Option A → Option (Dynamic F)
  boxed box none = none
  boxed box (some a) = some (box a)

module _ {F : Type 0} (fmt : Format F) (now : ℤ) where
  abbrev pub no_data : Text → Text → ℤ → Dict (Dynamic F)
  no_data kind id days =
      Dict.put
        (Dict.put
          (Dict.put
            (Dict.put (Dict.put Dict.empty (codes "scope_kind") (text kind)) (codes "scope_id")
              (text id))
            (codes "window_days") (int days))
          (codes "classification") (text (codes "insufficient_data")))
        (codes "computed_at") (text (fmt.rfc3339 now))

  abbrev pub counted : Text → Text → ℤ → Window F → Dict (Dynamic F)
  counted kind id days w =
      Dict.put
        (Dict.put (no_data kind id days) (codes "computed_at") (text (fmt.rfc3339 w.computed_at)))
        (codes "sample_size") (int32 w.sample_size)

  -- The map of a window that was found.
  unfoldable pub metrics_of : Text → Text → ℤ → Window F → Dict (Dynamic F)
  metrics_of kind id days w =
      put_some
        (put_some
          (put_some
            (Dict.put
              (Dict.put (counted kind id days w) (codes "lead_time_median_seconds")
                (int64_ptr w.lead_time_median_s))
              (codes "mttr_mean_seconds") (int64_ptr w.mttr_mean_s))
            (codes "classification") (boxed text w.classification))
          (codes "deployment_frequency") (boxed float64 w.deployment_frequency))
        (codes "change_failure_rate") (boxed float64 w.change_failure_rate)

  abbrev pub of_window : Text → Text → ℤ → Load (Window F) → Outcome (Dict (Dynamic F))
  of_window kind id days (found w) = returned (metrics_of kind id days w)
  of_window kind id days no_rows = returned (no_data kind id days)
  of_window kind id days load_error = raised query_failed

module _ {F : Type 0} (db : Db F) where
  abbrev pub tenant_of : Text → Text → Outcome Text
  tenant_of kind id =
      if same kind (codes "project")
      then elim (db.get_project id) [
        | found t ↦ returned t
        | no_rows ↦ raised (not_found kind id)
        | load_error ↦ raised query_failed
      ]
      else if same kind (codes "team")
      then elim (db.get_team id) [
        | found t ↦ returned t
        | no_rows ↦ raised (not_found kind id)
        | load_error ↦ raised query_failed
      ]
      else raised (bad_kind kind)

module _ {F : Type 0} (db : Db F) (fmt : Format F) (now : ℤ) where
  unfoldable pub fetch_metrics_by_id : Text → Text → ℤ → Outcome (Dict (Dynamic F))
  unfolding metrics_of
  fetch_metrics_by_id kind id days = elim (tenant_of db kind id) [
    | raised e ↦ raised e
    | returned tenant ↦
        of_window fmt now kind id days (db.get_latest_metric_window tenant kind id days)
  ]

-- The arguments of a tool, once unmarshalled.
pub record ScopeArgs : Type 0 where
  pub project_id : Text
  pub team_id : Text
  pub window_days : ℤ

pub record TeamsArgs : Type 0 where
  pub team_ids : List Text
  pub window_days : ℤ

-- What a tool returns; a team of a comparison has its metrics or its error.
pub data TeamEntry (F : Type 0) : Type 0 where
  team_metrics : Dict (Dynamic F) → TeamEntry F
  team_error : Text → ToolError → TeamEntry F

pub data ToolOutput (F : Type 0) : Type 0 where
  metrics : Dict (Dynamic F) → ToolOutput F
  deployments_stub : Text → ℤ → ToolOutput F
  comparison : ℤ → List (TeamEntry F) → ToolOutput F
  trend : Text → Dict (Dynamic F) → ToolOutput F

module _ (parse_uuid : Text → Option Text) where
  -- The scope that the arguments name: exactly one of a project and a team.
  unfoldable pub scope_of : ScopeArgs → Outcome (Text × Text)
  scope_of a =
      if same a.project_id []
      then if same a.team_id [] then raised exactly_one else elim (parse_uuid a.team_id) [
        | none ↦ raised bad_team_id
        | some id ↦ returned (codes "team", id)
      ]
      else if same a.team_id []
      then elim (parse_uuid a.project_id) [
        | none ↦ raised bad_project_id
        | some id ↦ returned (codes "project", id)
      ]
      else raised exactly_one

  unfoldable pub tool_get_deployments : {F : Type 0} → Option ScopeArgs → Outcome (ToolOutput F)
  tool_get_deployments none = raised invalid_arguments
  tool_get_deployments (some a) =
      if same a.project_id [] then raised project_required else elim (parse_uuid a.project_id) [
        | none ↦ raised bad_project_id
        | some id ↦ returned (deployments_stub a.project_id (effective a.window_days))
      ]

module _ {F : Type 0} (db : Db F) (fmt : Format F) (now : ℤ) (parse_uuid : Text → Option Text) where
  abbrev pub fetch : Text → Text → ℤ → Outcome (Dict (Dynamic F))
  fetch = fetch_metrics_by_id db fmt now

  abbrev as_metrics : Outcome (Dict (Dynamic F)) → Outcome (ToolOutput F)
  as_metrics (raised e) = raised e
  as_metrics (returned m) = returned (metrics m)

  abbrev metrics_for : ℤ → Outcome (Text × Text) → Outcome (ToolOutput F)
  metrics_for days (raised e) = raised e
  metrics_for days (returned (kind, id)) = as_metrics (fetch kind id days)

  unfoldable pub tool_get_dora_metrics : Option ScopeArgs → Outcome (ToolOutput F)
  unfolding scope_of fetch_metrics_by_id
  tool_get_dora_metrics none = raised invalid_arguments
  tool_get_dora_metrics (some a) = metrics_for (effective a.window_days) (scope_of parse_uuid a)

  abbrev pub entry_of : Text → Outcome (Dict (Dynamic F)) → TeamEntry F
  entry_of raw (raised e) = team_error raw e
  entry_of raw (returned m) = team_metrics m

  abbrev and_entries : TeamEntry F → Outcome (List (TeamEntry F)) → Outcome (List (TeamEntry F))
  and_entries e (raised x) = raised x
  and_entries e (returned es) = returned (e ∷ es)

  -- The loop over the teams: an id that does not parse ends it, a team that fails does not.
  unfoldable pub team_entries : ℤ → List Text → Outcome (List (TeamEntry F))
  unfolding fetch_metrics_by_id
  team_entries days [] = returned []
  team_entries days (raw ∷ raws) = elim (parse_uuid raw) [
    | none ↦ raised bad_team_id
    | some id ↦ and_entries (entry_of raw (fetch (codes "team") id days)) (team_entries days raws)
  ]

  abbrev as_comparison : ℤ → Outcome (List (TeamEntry F)) → Outcome (ToolOutput F)
  as_comparison days (raised e) = raised e
  as_comparison days (returned es) = returned (comparison days es)

  unfoldable pub tool_compare_teams : Option TeamsArgs → Outcome (ToolOutput F)
  unfolding team_entries
  tool_compare_teams none = raised invalid_arguments
  tool_compare_teams (some a) =
      if ltb (length a.team_ids) 2 || ltb 4 (length a.team_ids)
      then raised (team_count (length a.team_ids))
      else as_comparison (effective a.window_days)
          (team_entries (effective a.window_days) a.team_ids)
