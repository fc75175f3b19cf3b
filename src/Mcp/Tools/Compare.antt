-- ===== src/Mcp/Tools/Compare.antt =====
-- The comparison of teams (`toolCompareTeams` of backend/internal/mcp/server/tools.go).
use dora_metrics_app.Base.{
  ℕ, ◌≤◌, ◌<◌, ◌≡◌, refl, ◌⊎◌, inl, inr, true, false, ◌||◌, Option, none, some, List, [], ◌∷◌,
  arith, ltb, length, Any, Bool-cases, Option-cases,
}
use dora_metrics_app.Base.Int.{ℤ}
use dora_metrics_app.Base.Text.{Text, codes}
use dora_metrics_app.Mcp.Tools.{
  Outcome, returned, raised, bad_team_id, team_count, Db, Format, effective, TeamsArgs, TeamEntry,
  comparison, ToolOutput, fetch, entry_of, and_entries, team_entries, as_comparison,
  tool_compare_teams,
}

out_of_range : (n : ℕ) → ltb n 2 || ltb 4 n ≡ true → (n < 2) ⊎ (4 < n)
out_of_range n h = ground arith

module _ {F : Type 0} (db : Db F) (fmt : Format F) (now : ℤ) (parse_uuid : Text → Option Text) where
  abbrev pub EntryOf : ℤ → Text → TeamEntry F → Type 0
  EntryOf days raw e =
      (id : Text) × (parse_uuid raw ≡ some id)
      × (e
          ≡ entry_of db fmt now parse_uuid raw (fetch db fmt now parse_uuid (codes "team") id days))

  -- The entries are those of the teams, one by one.
  abbrev pub Compared : ℤ → List Text → List (TeamEntry F) → Type 0
  Compared days [] [] = Unit
  Compared days (raw ∷ raws) (e ∷ es) = EntryOf days raw e × Compared days raws es
  Compared days _ _ = ⊥

  -- What a comparison came to: the entries in order, or an id that does not parse.
  abbrev Made : ℤ → List Text → Outcome (List (TeamEntry F)) → Type 0
  Made days raws (returned es) = Compared days raws es
  Made days raws (raised e) = (e ≡ bad_team_id) × Any (λ raw. parse_uuid raw ≡ none) raws

  Made-cons :
      (days : ℤ) (raw id : Text) (raws : List Text) (rest : Outcome (List (TeamEntry F)))
      → parse_uuid raw ≡ some id
      → Made days raws rest
      → Made days (raw ∷ raws) (
          and_entries db fmt now parse_uuid
            (entry_of db fmt now parse_uuid raw
              (fetch db fmt now parse_uuid (codes "team") id days))
            rest)
  Made-cons days raw id raws (raised e) h m = (m.0, inr m.1)
  Made-cons days raw id raws (returned es) h m = ((id, h, refl), m)

  team_entries-Made :
      (days : ℤ) (raws : List Text) → Made days raws (team_entries db fmt now parse_uuid days raws)
  unfolding team_entries
  team_entries-Made days [] = tt
  team_entries-Made days (raw ∷ raws) = elim (Option-cases (parse_uuid raw)) [
    | inl e ↦ rw (e, team_entries) (refl, inl e)
    | inr (id, e) ↦
        rw (e, team_entries)
          (Made-cons days raw id raws (team_entries db fmt now parse_uuid days raws) e
            (team_entries-Made days raws))
  ]

  -- The answer of the tool: a comparison of two to four teams, or the error that stands for what is
  -- wrong with the ids.
  abbrev pub Answered : TeamsArgs → Outcome (ToolOutput F) → Type 0
  Answered a (returned out) =
      (es : List (TeamEntry F)) × (out ≡ comparison (effective a.window_days) es)
      × Compared (effective a.window_days) a.team_ids es
      × (2 ≤ length a.team_ids)
      × (length a.team_ids ≤ 4)
  Answered a (raised e) =
      (e ≡ team_count (length a.team_ids)) × ((length a.team_ids < 2) ⊎ (4 < length a.team_ids))
      ⊎ (e ≡ bad_team_id) × Any (λ raw. parse_uuid raw ≡ none) a.team_ids

  comparison-Answered :
      (a : TeamsArgs) (made : Outcome (List (TeamEntry F)))
      → ltb (length a.team_ids) 2 || ltb 4 (length a.team_ids) ≡ false
      → Made (effective a.window_days) a.team_ids made
      → Answered a (as_comparison db fmt now parse_uuid (effective a.window_days) made)
  comparison-Answered a (returned es) h m = (es, refl, m, ground arith, ground arith)
  comparison-Answered a (raised e) h m = inr m

-- With arguments that unmarshal, a comparison is refused exactly if there are not two to four teams,
-- or an id does not parse; otherwise it has one entry for each team in order, with its metrics, or
-- with the error of a team whose metrics could not be fetched.
pub tool_compare_teams-Answered :
    {F : Type 0} (db : Db F) (fmt : Format F) (now : ℤ) (parse_uuid : Text → Option Text)
    (a : TeamsArgs)
    → Answered db fmt now parse_uuid a (tool_compare_teams db fmt now parse_uuid (some a))
unfolding tool_compare_teams
tool_compare_teams-Answered db fmt now parse_uuid a =
    elim (Bool-cases (ltb (length a.team_ids) 2 || ltb 4 (length a.team_ids))) [
      | inl e ↦ rw e (inl (refl, out_of_range (length a.team_ids) e))
      | inr e ↦ rw e (
          comparison-Answered db fmt now parse_uuid a
            (team_entries db fmt now parse_uuid (effective a.window_days) a.team_ids) e
            (team_entries-Made db fmt now parse_uuid (effective a.window_days) a.team_ids))
    ]
