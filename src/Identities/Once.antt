-- ===== src/Identities/Once.antt =====
-- The keys of the pairs that `Match` suggests.
use mathlib.Core.Path.{subst}
use dora_metrics_app.Base.{
  ℕ, ◌≤◌, ◌≡◌, refl, ap, sym, ◌∙◌, inl, inr, String, Bool, true, Option, none, some, List, [], ◌∷◌,
  ◌++◌, arith, Any, count, count-append, is_some, str_eq, eq_iff, if◌then◌else◌, Bool-cases,
  Option-cases,
}
use dora_metrics_app.Base.Text.{Text, same, same_iff, same_refl}
use dora_metrics_app.Base.Dict
use dora_metrics_app.Base.Sort.{count-sort}
use dora_metrics_app.Identities.Sound.{score-IsScored}
use dora_metrics_app.Identities.{
  Identity, Suggestion, Found, no_matches, add_suggestion, match_one, match_all, match, score,
  pair_key, of_kind, not_below,
}

abbrev pub keyed : Text → Suggestion → Bool
keyed k s = same (pair_key s.a.id s.b.id) k

abbrev once : Bool → ℕ
once b = if b then 1 else 0

-- A key has been seen exactly if the suggestions hold one pair of that key, and no key has two.
abbrev OneEach : Found → Type 0
OneEach f = (k : Text) → count (keyed k) f.out ≡ once (is_some (Dict.get f.seen k))

add_suggestion-OneEach :
    (f : Found) (key : Text) (o : Option Suggestion)
    → ((s : Suggestion) → o ≡ some s → pair_key s.a.id s.b.id ≡ key)
    → OneEach f
    → OneEach (add_suggestion f key o)
add_suggestion-OneEach f key none named h k = h k
add_suggestion-OneEach f key (some s) named h k = elim (Option-cases (Dict.get f.seen key)) [
  | inr (b, e) ↦ rw (e, add_suggestion) (h k)
  | inl e ↦ rw (e, add_suggestion) (fresh e)
]
  where
    fresh :
        Dict.get f.seen key ≡ none
        → count (keyed k) (f.out ++ s ∷ []) ≡ once (is_some (Dict.get (Dict.put f.seen key true) k))
    fresh e = elim (Bool-cases (same key k)) [
      | inl i ↦
          let unseen : Dict.get f.seen k ≡ none =
            subst (λ j. Dict.get f.seen j ≡ none) ((same_iff key k).0 i) e in
          ground (
            arith,
            count-append (keyed k) f.out (s ∷ []),
            ap (λ j. same j k) (named s refl),
            i,
            h k,
            unseen,
            Dict.get-put f.seen key k true,
          )
      | inr i ↦ ground (
        arith,
        count-append (keyed k) f.out (s ∷ []),
        ap (λ j. same j k) (named s refl),
        i,
        h k,
        Dict.get-put f.seen key k true,
      )
    ]

module _ (to_lower : Text → Text) where
  score-key :
      (g j : Identity) (s : Suggestion)
      → score to_lower g j ≡ some s
      → pair_key s.a.id s.b.id ≡ pair_key g.id j.id
  score-key g j s h =
      let scored = score-IsScored to_lower g j s h in rw (scored.a_is, scored.b_is) refl

  match_one-OneEach :
      (g : Identity) (jira : List Identity) (f : Found)
      → OneEach f
      → OneEach (match_one to_lower g jira f)
  match_one-OneEach g [] f h = h
  match_one-OneEach g (j ∷ jira) f h =
      match_one-OneEach g jira (add_suggestion f (pair_key g.id j.id) (score to_lower g j))
        (add_suggestion-OneEach f (pair_key g.id j.id) (score to_lower g j) (score-key g j) h)

  match_all-OneEach :
      (gitlab jira : List Identity) (f : Found)
      → OneEach f
      → OneEach (match_all to_lower gitlab jira f)
  match_all-OneEach [] jira f h = h
  match_all-OneEach (g ∷ gitlab) jira f h =
      match_all-OneEach gitlab jira (match_one to_lower g jira f) (match_one-OneEach g jira f h)

-- A key that has been seen stays so.
abbrev Seen : Text → Found → Type 0
Seen k f = is_some (Dict.get f.seen k) ≡ true

add_suggestion-Seen :
    (k key : Text) (f : Found) (o : Option Suggestion) → Seen k f → Seen k (add_suggestion f key o)
add_suggestion-Seen k key f none h = h
add_suggestion-Seen k key f (some s) h = elim (Option-cases (Dict.get f.seen key)) [
  | inr (b, e) ↦ rw (e, add_suggestion) h
  | inl e ↦ rw (e, add_suggestion) (ground (arith, h, Dict.get-put f.seen key k true))
]

added-Seen : (key : Text) (f : Found) (s : Suggestion) → Seen key (add_suggestion f key (some s))
added-Seen key f s = elim (Option-cases (Dict.get f.seen key)) [
  | inr (b, e) ↦ rw (e, add_suggestion) (rw e refl)
  | inl e ↦ rw (e, add_suggestion) (ground (arith, same_refl key, Dict.get-put f.seen key key true))
]

module _ (to_lower : Text → Text) where
  match_one-Seen :
      (k : Text) (g : Identity) (jira : List Identity) (f : Found)
      → Seen k f
      → Seen k (match_one to_lower g jira f)
  match_one-Seen k g [] f h = h
  match_one-Seen k g (j ∷ jira) f h =
      match_one-Seen k g jira _
        (add_suggestion-Seen k (pair_key g.id j.id) f (score to_lower g j) h)

  match_all-Seen :
      (k : Text) (gitlab jira : List Identity) (f : Found)
      → Seen k f
      → Seen k (match_all to_lower gitlab jira f)
  match_all-Seen k [] jira f h = h
  match_all-Seen k (g ∷ gitlab) jira f h =
      match_all-Seen k gitlab jira _ (match_one-Seen k g jira f h)

  module _ (g j : Identity) (s : Suggestion) (scored : score to_lower g j ≡ some s) where
    one_found :
        (jira : List Identity) (f : Found)
        → Any (λ i. i ≡ j) jira
        → Seen (pair_key g.id j.id) (match_one to_lower g jira f)
    one_found [] f m = absurd m
    one_found (i ∷ jira) f (inl e) = match_one-Seen (pair_key g.id j.id) g jira _ (
        subst
          (λ x.
            Seen (pair_key g.id j.id) (add_suggestion f (pair_key g.id x.id) (score to_lower g x)))
          (sym e)
          (subst (λ o. Seen (pair_key g.id j.id) (add_suggestion f (pair_key g.id j.id) o))
            (sym scored) (added-Seen (pair_key g.id j.id) f s)))
    one_found (i ∷ jira) f (inr m) = one_found jira _ m

    all_found :
        (gitlab jira : List Identity) (f : Found)
        → Any (λ i. i ≡ g) gitlab
        → Any (λ i. i ≡ j) jira
        → Seen (pair_key g.id j.id) (match_all to_lower gitlab jira f)
    all_found [] jira f m n = absurd m
    all_found (i ∷ gitlab) jira f (inl e) n = match_all-Seen (pair_key g.id j.id) gitlab jira _ (
        subst (λ x. Seen (pair_key g.id j.id) (match_one to_lower x jira f)) (sym e)
          (one_found jira f n))
    all_found (i ∷ gitlab) jira f (inr m) n = all_found gitlab jira _ m n

of_kind-Any :
    (kind : String) (i : Identity) (ids : List Identity)
    → i.kind ≡ kind
    → Any (λ x. x ≡ i) ids
    → Any (λ x. x ≡ i) (of_kind kind ids)
of_kind-Any kind i [] k m = m
of_kind-Any kind i (x ∷ ids) k (inl e) =
    let here : str_eq x.kind kind ≡ true =
      (eq_iff x.kind kind).1 (ap (λ (y : Identity). y.kind) e ∙ k) in
    rw here (inl e)
of_kind-Any kind i (x ∷ ids) k (inr m) = elim (Bool-cases (str_eq x.kind kind)) [
  | inl e ↦ rw e (inr (of_kind-Any kind i ids k m))
  | inr e ↦ rw e (of_kind-Any kind i ids k m)
]

no_matches-OneEach : OneEach no_matches
no_matches-OneEach k = rw (Dict.get-empty {V = Bool} k) refl

pub keyed_sound :
    (to_lower : Text → Text) (identities : List Identity) (k : Text)
    → count (keyed k) (match to_lower identities) ≤ 1
unfolding match
keyed_sound to_lower identities k =
    let f =
      match_all to_lower (of_kind "gitlab" identities) (of_kind "jira" identities) no_matches in
    at_most (is_some (Dict.get f.seen k)) (
      count-sort not_below (keyed k) f.out
      ∙ match_all-OneEach to_lower (of_kind "gitlab" identities) (of_kind "jira" identities)
          no_matches no_matches-OneEach k)
  where
    at_most : {n : ℕ} (b : Bool) → n ≡ once b → n ≤ 1
    at_most b e = ground (arith, e)

module _ (to_lower : Text → Text) (identities : List Identity) where
  pub keyed_once :
      (g j : Identity) (s : Suggestion)
      → Any (λ i. i ≡ g) identities
      → Any (λ i. i ≡ j) identities
      → g.kind ≡ "gitlab"
      → j.kind ≡ "jira"
      → score to_lower g j ≡ some s
      → count (keyed (pair_key g.id j.id)) (match to_lower identities) ≡ 1
  unfolding match
  keyed_once g j s mg mj kg kj scored =
      let gitlab = of_kind "gitlab" identities in
      let jira = of_kind "jira" identities in
      let f = match_all to_lower gitlab jira no_matches in
      count-sort not_below (keyed (pair_key g.id j.id)) f.out
      ∙ match_all-OneEach to_lower gitlab jira no_matches no_matches-OneEach (pair_key g.id j.id)
      ∙ ap once (
          all_found to_lower g j s scored gitlab jira no_matches
            (of_kind-Any "gitlab" g identities kg mg) (of_kind-Any "jira" j identities kj mj))
