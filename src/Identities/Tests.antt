-- ===== src/Identities/Tests.antt =====
-- A run of the matching, and its theorems on it. Plain ASCII needs no case mapping here.
use mathlib.Core.Path.{subst}
use mathlib.Core.Logic.{◌⊎◌}
use mathlib.Core.Option.{some-injective}
use dora_metrics_app.Base.{
  ◌≤◌, ◌≡◌, refl, sym, ap, ◌∙◌, inl, inr, String, Option, none, some, List, [], ◌∷◌, All, Any,
  count, map, leb, arith, if◌then◌else◌,
}
use dora_metrics_app.Base.Text.{Text, codes, same}
use dora_metrics_app.Base.Dict
use dora_metrics_app.Base.Sort.{IsSorted}
use dora_metrics_app.Identities.{Identity, Suggestion, match}
use dora_metrics_app.Identities.Pairs.{IsBarless, pairs, match_once}
use dora_metrics_app.Identities.Sound.{Agree, IsSuggested, match_sound}

abbrev same_case : Text → Text
same_case s = s

abbrev who : String → String → String → String → Identity
who id kind name email = record {
  id = codes id;
  kind = kind;
  external_username = codes name;
  external_email = codes email;
}

abbrev people : List Identity
people =
    who "1" "gitlab" "ana" ""
    ∷ who "2" "jira" "ana " "a@x"
    ∷ who "3" "gitlab" "bia" " b@x"
    ∷ who "4" "jira" "other" "b@x"
    ∷ []

suggested :
    map (λ (s : Suggestion). s.reason) (match same_case people)
    ≡ "email_exact" ∷ "username_exact" ∷ []
unfolding match Dict.get Dict.put Dict.empty
suggested = refl

match_sound_example :
    All (IsSuggested same_case people) (match same_case people)
    × IsSorted (λ s t. leb t.score s.score) (match same_case people)
match_sound_example = match_sound same_case people

people-IsBarless : All (λ i. IsBarless i.id) people
people-IsBarless =
    ((ground arith, tt), ((ground arith, tt), ((ground arith, tt), ((ground arith, tt), tt))))

-- The place of an identity in the list is what its id says.
with_id : Text → List Identity → Option Identity
with_id x [] = none
with_id x (i ∷ is) = let rest = with_id x is in if same i.id x then some i else rest

found_by_id : (i : Identity) → Any (λ x. x ≡ i) people → with_id i.id people ≡ some i
unfolding with_id same
found_by_id i (inl e) = subst (λ (k : Identity). with_id k.id people ≡ some k) e refl
found_by_id i (inr (inl e)) = subst (λ (k : Identity). with_id k.id people ≡ some k) e refl
found_by_id i (inr (inr (inl e))) = subst (λ (k : Identity). with_id k.id people ≡ some k) e refl
found_by_id i (inr (inr (inr (inl e)))) =
    subst (λ (k : Identity). with_id k.id people ≡ some k) e refl
found_by_id i (inr (inr (inr (inr m)))) = absurd m

people_unique :
    (i j : Identity) → Any (λ x. x ≡ i) people → Any (λ x. x ≡ j) people → i.id ≡ j.id → i ≡ j
people_unique i j mi mj e =
    some-injective _ _ (sym (found_by_id i mi) ∙ ap (λ x. with_id x people) e ∙ found_by_id j mj)

match_once_example :
    ((x y : Text) → count (pairs x y) (match same_case people) ≤ 1)
    × ((g j : Identity)
        → Any (λ i. i ≡ g) people
        → Any (λ i. i ≡ j) people
        → g.kind ≡ "gitlab"
        → j.kind ≡ "jira"
        → Agree same_case g.external_email j.external_email
          ⊎ Agree same_case g.external_username j.external_username
        → count (pairs g.id j.id) (match same_case people) ≡ 1)
match_once_example = match_once same_case people people-IsBarless people_unique
