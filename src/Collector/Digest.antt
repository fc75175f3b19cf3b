-- ===== src/Collector/Digest.antt =====
-- backend/internal/collector/digest.go: the weekly digest of each project and team, with its queries as
-- functions on lists of rows. Instants are in nanoseconds since 1970 and in UTC. `iso_week` stands for
-- `ISOWeek` with its format. Of two groups of contributors with as many deployments the query may
-- give either first, and the model gives the one that comes first in the rows.
pub mod Week
pub mod Rows
mod Tests
use dora_metrics_app.Base.{
  ℕ, ◌+◌, ◌-◌, ◌*◌, ◌/◌, ◌%◌, String, Bool, true, false, not, ◌&&◌, ◌||◌, Option, none, some, List,
  [], ◌∷◌, map, ltb, leb, ◌==◌, str_eq, length, take, keep, count, if◌then◌else◌,
}
use dora_metrics_app.Base.Int.{ℤ, sub_ℕ}
use dora_metrics_app.Base.Sort.{sort}
use dora_metrics_app.Base.Text.{same}
use dora_metrics_app.Tier.{tier_rank}

abbrev pub second : ℕ
second = 1_000_000_000

abbrev pub day : ℕ
day = 86_400_000_000_000

-- `Weekday`, 0 for Sunday: the first of January 1970 was a Thursday.
abbrev pub weekday : ℕ → ℕ
weekday t = (t / day + 4) % 7

abbrev pub iso_weekday : ℕ → ℕ
iso_weekday t = if weekday t == 0 then 7 else weekday t

-- Monday at midnight: a day less for each day since, and the hours cut.
unfoldable pub start_of_iso_week : ℕ → ℕ
start_of_iso_week t = (t / day - (iso_weekday t - 1)) * day

-- The end and the start of the week before.
unfoldable pub digest_end : ℕ → ℕ
unfolding start_of_iso_week
digest_end now = start_of_iso_week now - second

unfoldable pub digest_start : ℕ → ℕ
unfolding digest_end
digest_start now = start_of_iso_week (digest_end now)

-- A deployment with its project's team, and the person who triggered it with the name that the join
-- finds.
pub record DeploymentRow : Type 0 where
  pub project_id : ℕ
  pub team_id : Option ℕ
  pub deployed_at : ℕ
  pub person_id : Option ℕ
  pub display_name : Option String
  pub triggered_by : Option String

pub record IncidentRow : Type 0 where
  pub project_id : ℕ
  pub team_id : Option ℕ
  pub created_at : ℕ

-- A window of 30 days of a scope.
pub record WindowRow : Type 0 where
  pub tenant_id : ℕ
  pub scope_kind : String
  pub scope_id : ℕ
  pub computed_at : ℕ
  pub classification : Option String

pub record Scope : Type 0 where
  pub id : ℕ
  pub tenant_id : ℕ
  pub scope_kind : String

abbrev pub is_in : ℕ → ℕ → ℕ → Bool
is_in start end t = leb start t && ltb t end

abbrev pub is_id : ℕ → Option ℕ → Bool
is_id n none = false
is_id n (some m) = m == n

-- A row of the scope: of the project, or of a project of the team.
abbrev pub belongs : Scope → ℕ → Option ℕ → Bool
belongs s project team = if str_eq s.scope_kind "project" then project == s.id else is_id s.id team

module _ (s : Scope) (start end : ℕ) where
  unfoldable pub deployments_of : List DeploymentRow → List DeploymentRow
  deployments_of = keep (λ d. belongs s d.project_id d.team_id && is_in start end d.deployed_at)

  unfoldable pub incidents_of : List IncidentRow → ℕ
  incidents_of = count (λ i. belongs s i.project_id i.team_id && is_in start end i.created_at)

pub record Contributor : Type 0 where
  pub person_id : Option ℕ
  pub name : String
  pub deploys : ℕ

abbrev pub same_id : Option ℕ → Option ℕ → Bool
same_id none none = true
same_id (some a) (some b) = a == b
same_id _ _ = false

abbrev pub same_name : Option String → Option String → Bool
same_name none none = true
same_name (some a) (some b) = str_eq a b
same_name _ _ = false

-- One group of `GROUP BY triggerer_person_id, display_name, triggered_by`.
abbrev pub same_group : DeploymentRow → DeploymentRow → Bool
same_group d e =
    same_id d.person_id e.person_id
    && (same_name d.display_name e.display_name && same_name d.triggered_by e.triggered_by)

-- `COALESCE`
abbrev pub name_of : Option String → Option String → String
name_of (some name) by = name
name_of none (some by) = by
name_of none none = "desconhecido"

abbrev pub contributor_of : List DeploymentRow → DeploymentRow → Contributor
contributor_of all d = record {
  person_id = d.person_id;
  name = name_of d.display_name d.triggered_by;
  deploys = count (λ e. same_group d e) all;
}

abbrev pub is_seen : DeploymentRow → List DeploymentRow → Bool
is_seen d [] = false
is_seen d (e ∷ seen) = same_group e d || is_seen d seen

-- The groups of `all`, each at its first row.
unfoldable pub groups :
    List DeploymentRow → List DeploymentRow → List DeploymentRow → List Contributor
groups all seen [] = []
groups all seen (d ∷ ds) =
    let rest = groups all (d ∷ seen) ds in
    if is_seen d seen then rest else contributor_of all d ∷ rest

-- `ORDER BY deploys DESC`
abbrev pub not_fewer : Contributor → Contributor → Bool
not_fewer a b = leb b.deploys a.deploys

-- `topContributorsForProject` and `topContributorsForTeam`
unfoldable pub top_contributors : List DeploymentRow → List Contributor
unfolding groups sort
top_contributors ds = take 3 (sort not_fewer (groups ds [] ds))

abbrev pub is_window_at : Scope → ℕ → WindowRow → Bool
is_window_at s moment w =
    w.tenant_id == s.tenant_id
    && (str_eq w.scope_kind s.scope_kind && (w.scope_id == s.id && leb w.computed_at moment))

abbrev pub later_window : WindowRow → Option WindowRow → WindowRow
later_window w none = w
later_window w (some v) = if ltb w.computed_at v.computed_at then v else w

unfoldable pub latest_window : List WindowRow → Option WindowRow
latest_window [] = none
latest_window (w ∷ ws) = some (later_window w (latest_window ws))

abbrev pub tier_of : Option WindowRow → String
tier_of none = ""
tier_of (some w) = elim w.classification [ none ↦ "" | some tier ↦ tier ]

-- `tierAt`, which gives "" where the query fails too: `fails` says that it does.
unfoldable pub tier_at : Bool → List WindowRow → Scope → ℕ → String
unfolding latest_window
tier_at fails windows s moment =
    if fails then "" else tier_of (latest_window (keep (is_window_at s moment) windows))

abbrev pub null_if_empty : String → Option String
null_if_empty t = if str_eq t "" then none else some t

-- A row of platform.digest_snapshot.
pub record Digest : Type 0 where
  pub scope : Scope
  pub iso_week : List ℕ
  pub week_start : ℕ
  pub week_end : ℕ
  pub deployments_count : ℕ
  pub incidents_count : ℕ
  pub current_tier : Option String
  pub previous_tier : Option String
  pub tier_delta : ℤ
  pub top : List Contributor

-- What the queries read. The failures are those of a scope: of a count or of the contributors, of a
-- tier at an instant, and of the insertion.
pub record Tables : Type 0 where
  pub deployments : List DeploymentRow
  pub incidents : List IncidentRow
  pub windows : List WindowRow
  pub read_fails : Scope → Bool
  pub tier_fails : Scope → ℕ → Bool
  pub insert_fails : Scope → Bool

module _ (iso_week : ℕ → List ℕ) (t : Tables) (start end : ℕ) where
  -- The row that `computeDigestFor` inserts.
  unfoldable pub digest_of : Scope → Digest
  unfolding deployments_of incidents_of top_contributors tier_at tier_rank
  digest_of s =
      let current = tier_at (t.tier_fails s end) t.windows s end in
      let previous = tier_at (t.tier_fails s (end - 7 * day)) t.windows s (end - 7 * day) in
      record {
        scope = s;
        iso_week = iso_week start;
        week_start = start;
        week_end = end;
        deployments_count = length (deployments_of s start end t.deployments);
        incidents_count = incidents_of s start end t.incidents;
        current_tier = null_if_empty current;
        previous_tier = null_if_empty previous;
        tier_delta = sub_ℕ (tier_rank current) (tier_rank previous);
        top = top_contributors (deployments_of s start end t.deployments);
      }

abbrev pub same_scope : Scope → Scope → Bool
same_scope a b = a.tenant_id == b.tenant_id && (str_eq a.scope_kind b.scope_kind && a.id == b.id)

-- The key (tenant_id, scope_kind, scope_id, iso_week).
abbrev pub same_key : Digest → Digest → Bool
same_key a b = same_scope a.scope b.scope && same a.iso_week b.iso_week

-- `ON CONFLICT DO UPDATE`: the days of the week stay.
abbrev pub replaced : Digest → Digest → Digest
replaced old d = record d { week_start = old.week_start; week_end = old.week_end }

unfoldable pub upsert_digest : Digest → List Digest → List Digest
unfolding same
upsert_digest d [] = d ∷ []
upsert_digest d (old ∷ rows) =
    if same_key old d then replaced old d ∷ rows else old ∷ upsert_digest d rows

module _ (iso_week : ℕ → List ℕ) (t : Tables) (start end : ℕ) where
  unfoldable pub compute_digest_for : Scope → List Digest → List Digest
  compute_digest_for s rows =
      if t.read_fails s || t.insert_fails s
      then rows
      else upsert_digest (digest_of iso_week t start end s) rows

  -- The loop over the scopes: one that fails is logged and skipped.
  unfoldable pub compute_digests : List Scope → List Digest → List Digest
  unfolding compute_digest_for
  compute_digests [] rows = rows
  compute_digests (s ∷ ss) rows = compute_digests ss (compute_digest_for s rows)

-- The task: the new rows, or none where the scopes cannot be listed.
unfoldable pub handle_digest_weekly :
    (ℕ → List ℕ) → Tables → ℕ → Option (List Scope) → List Digest → Option (List Digest)
unfolding compute_digests digest_start
handle_digest_weekly iso_week t now none rows = none
handle_digest_weekly iso_week t now (some scopes) rows =
    some (compute_digests iso_week t (digest_start now) (digest_end now) scopes rows)
