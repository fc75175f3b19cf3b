-- ===== src/Identities.antt =====
-- backend/internal/identities/automatch.go: suggestions of identities that may be one person. Scores
-- are in tenths: the two constants 1.0 and 0.7 are all that the code makes of them. `to_lower` stands
-- for `strings.ToLower`, over the Unicode tables.
pub mod Sound
pub mod Once
pub mod Pairs
mod Tests
use dora_metrics_app.Base.{
  ℕ, String, Bool, true, false, not, ◌&&◌, ◌||◌, Option, none, some, List, [], ◌∷◌, ◌++◌, ltb, leb,
  ◌==◌, str_eq, if◌then◌else◌,
}
use dora_metrics_app.Base.Text.{Text, codes, same, trim_space}
use dora_metrics_app.Base.Dict
use dora_metrics_app.Base.Dict.{Dict}
use dora_metrics_app.Base.Sort.{sort}

-- `id` is the canonical text of the UUID.
pub record Identity : Type 0 where
  pub id : Text
  pub kind : String
  pub external_username : Text
  pub external_email : Text

pub record Suggestion : Type 0 where
  pub a : Identity
  pub b : Identity
  pub reason : String
  pub score : ℕ

-- `a < b` on strings.
unfoldable pub text_lt : Text → Text → Bool
text_lt s [] = false
text_lt [] (b ∷ t) = true
text_lt (a ∷ s) (b ∷ t) = ltb a b || (a == b && text_lt s t)

unfoldable pub pair_key : Text → Text → Text
unfolding text_lt
pair_key a b = if text_lt a b then a ++ b'|' ∷ b else b ++ b'|' ∷ a

abbrev pub of_kind : String → List Identity → List Identity
of_kind kind [] = []
of_kind kind (i ∷ is) = let rest = of_kind kind is in if str_eq i.kind kind then i ∷ rest else rest

-- The variables `seen` and `out` of the loops.
pub record Found : Type 0 where
  pub seen : Dict Bool
  pub out : List Suggestion

abbrev pub no_matches : Found
no_matches = record { seen = Dict.empty; out = [] }

abbrev pub add_suggestion : Found → Text → Option Suggestion → Found
add_suggestion f key none = f
add_suggestion f key (some s) = elim (Dict.get f.seen key) [
  | some _ ↦ f
  | none ↦ record { seen = Dict.put f.seen key true; out = f.out ++ s ∷ [] }
]

module _ (to_lower : Text → Text) where
  abbrev pub fold_case : Text → Text
  fold_case s = to_lower (trim_space s)

  abbrev pub matches : Text → Text → Bool
  matches s t = not (same (fold_case s) []) && same (fold_case s) (fold_case t)

  unfoldable pub score : Identity → Identity → Option Suggestion
  unfolding same trim_space
  score a b =
      if matches a.external_email b.external_email
      then some (record { a = a; b = b; reason = "email_exact"; score = 10 })
      else if matches a.external_username b.external_username
      then some (record { a = a; b = b; reason = "username_exact"; score = 7 })
      else none

  -- The inner loop, over the Jira identities.
  abbrev pub match_one : Identity → List Identity → Found → Found
  match_one g [] f = f
  match_one g (j ∷ jira) f = match_one g jira (add_suggestion f (pair_key g.id j.id) (score g j))

  abbrev pub match_all : List Identity → List Identity → Found → Found
  match_all [] jira f = f
  match_all (g ∷ gitlab) jira f = match_all gitlab jira (match_one g jira f)

-- A higher score comes first, and equal scores keep their order.
abbrev pub not_below : Suggestion → Suggestion → Bool
not_below s t = leb t.score s.score

unfoldable pub match : (Text → Text) → List Identity → List Suggestion
unfolding score pair_key sort
match to_lower identities =
    sort not_below
      (match_all to_lower (of_kind "gitlab" identities) (of_kind "jira" identities) no_matches).out
