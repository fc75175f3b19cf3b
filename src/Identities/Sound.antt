-- ===== src/Identities/Sound.antt =====
-- What `Match` suggests, and in which order.
use mathlib.Core.Path.{subst, subst₂}
use mathlib.Core.Logic.{◌⊎◌, ◌↔◌}
use mathlib.Core.Option.{some-injective}
use dora_metrics_app.Base.{
  ℕ, ◌≡◌, ◌≢◌, refl, ap, sym, ◌∙◌, inl, inr, String, true, false, Option, none, some, List, [], ◌∷◌,
  arith, Any, All, All-append, str_eq, eq_iff, Bool-cases, Option-cases, leb, is_some,
}
use dora_metrics_app.Base.Text.{Text, same, same_iff, trim_space}
use dora_metrics_app.Base.Dict
use dora_metrics_app.Base.Sort.{All-sort, IsSorted, sort-IsSorted}
use dora_metrics_app.Identities.{
  Identity, Suggestion, Found, no_matches, add_suggestion, match_one, match_all, match, score,
  pair_key, of_kind, not_below, matches,
}

module _ (to_lower : Text → Text) where
  -- Two texts that are equal, and not empty, once trimmed and in lower case.
  abbrev pub Agree : Text → Text → Type 0
  Agree s t = (to_lower (trim_space s) ≢ []) × (to_lower (trim_space s) ≡ to_lower (trim_space t))

  abbrev pub AgreeBy : Identity → Identity → String → ℕ → Type 0
  AgreeBy a b reason n =
      Agree a.external_email b.external_email × (reason ≡ "email_exact") × (n ≡ 10)
      ⊎ (¬ Agree a.external_email b.external_email)
        × Agree a.external_username b.external_username
        × (reason ≡ "username_exact")
        × (n ≡ 7)

  matches_iff : (s t : Text) → (matches to_lower s t ≡ true) ↔ Agree s t
  unfolding same trim_space
  matches_iff s t =
      let empty = same_iff (to_lower (trim_space s)) [] in
      let equal = same_iff (to_lower (trim_space s)) (to_lower (trim_space t)) in
      (λ h. ground (arith, h, empty, equal), λ h. ground (arith, h, empty, equal))

  not_matches : (s t : Text) → matches to_lower s t ≡ false → ¬ Agree s t
  unfolding same trim_space
  not_matches s t h k = cc (h, (matches_iff s t).1 k)

  pub record IsScored (a b : Identity) (s : Suggestion) : Type 0 where
    pub a_is : s.a ≡ a
    pub b_is : s.b ≡ b
    pub agree : AgreeBy a b s.reason s.score

  pub score-IsScored :
      (a b : Identity) (s : Suggestion) → score to_lower a b ≡ some s → IsScored a b s
  unfolding score
  score-IsScored a b s h = elim (Bool-cases (matches to_lower a.external_email b.external_email)) [
    | inl e ↦
        scored (rw e at h) (inl ((matches_iff a.external_email b.external_email).0 e, refl, refl))
    | inr e ↦ elim (Bool-cases (matches to_lower a.external_username b.external_username)) [
      | inl e' ↦ scored (rw (e, e') at h) (
          inr (
            not_matches a.external_email b.external_email e,
            (matches_iff a.external_username b.external_username).0 e',
            refl,
            refl,
          ))
      | inr e' ↦ absurd (cc (h, e, e'))
    ]
  ]
    where
      scored :
          {reason : String} {n : ℕ}
          → some (record { a = a; b = b; reason = reason; score = n }) ≡ some s
          → AgreeBy a b reason n
          → IsScored a b s
      scored e k =
          subst (IsScored a b) (some-injective _ _ e)
            (record { a_is = refl; b_is = refl; agree = k })

  pub Agree-score :
      (a b : Identity)
      → Agree a.external_email b.external_email ⊎ Agree a.external_username b.external_username
      → is_some (score to_lower a b) ≡ true
  unfolding score
  Agree-score a b h = elim (Bool-cases (matches to_lower a.external_email b.external_email)) [
    | inl e ↦ rw e refl
    | inr e ↦ elim h [
      | inl k ↦ absurd (not_matches a.external_email b.external_email e k)
      | inr k ↦
          let e' = (matches_iff a.external_username b.external_username).1 k in rw (e, e') refl
    ]
  ]

module _ (to_lower : Text → Text) (identities : List Identity) where
  -- A GitLab identity and a Jira identity of the input that agree, with the reason and its score.
  pub record IsSuggested (s : Suggestion) : Type 0 where
    pub a_given : Any (λ i. i ≡ s.a) identities
    pub b_given : Any (λ i. i ≡ s.b) identities
    pub a_gitlab : s.a.kind ≡ "gitlab"
    pub b_jira : s.b.kind ≡ "jira"
    pub agree : AgreeBy to_lower s.a s.b s.reason s.score

  abbrev OfKind : String → Identity → Type 0
  OfKind kind i = (i.kind ≡ kind) × Any (λ x. x ≡ i) identities

  of_kind-OfKind :
      (kind : String) (ids : List Identity)
      → ((i : Identity) → Any (λ x. x ≡ i) ids → Any (λ x. x ≡ i) identities)
      → All (OfKind kind) (of_kind kind ids)
  of_kind-OfKind kind [] within = tt
  of_kind-OfKind kind (i ∷ ids) within =
      let rest = of_kind-OfKind kind ids (λ x m. within x (inr m)) in
      elim (Bool-cases (str_eq i.kind kind)) [
        | inl e ↦ rw e (((eq_iff i.kind kind).0 e, within i (inl refl)), rest)
        | inr e ↦ rw e rest
      ]

  suggested :
      (g j : Identity) (s : Suggestion)
      → OfKind "gitlab" g
      → OfKind "jira" j
      → score to_lower g j ≡ some s
      → IsSuggested s
  suggested g j s hg hj e =
      let scored = score-IsScored to_lower g j s e in
      let ea = scored.a_is in
      let eb = scored.b_is in
      record {
        a_given = subst (λ x. Any (λ i. i ≡ x) identities) (sym ea) hg.1;
        b_given = subst (λ x. Any (λ i. i ≡ x) identities) (sym eb) hj.1;
        a_gitlab = ap (λ (i : Identity). i.kind) ea ∙ hg.0;
        b_jira = ap (λ (i : Identity). i.kind) eb ∙ hj.0;
        agree =
            subst₂ (λ x y. AgreeBy to_lower x y s.reason s.score) (sym ea) (sym eb) scored.agree;
      }

  add_suggestion-All :
      (f : Found) (key : Text) (o : Option Suggestion)
      → ((s : Suggestion) → o ≡ some s → IsSuggested s)
      → All IsSuggested f.out
      → All IsSuggested (add_suggestion f key o).out
  add_suggestion-All f key none sound h = h
  add_suggestion-All f key (some s) sound h = elim (Option-cases (Dict.get f.seen key)) [
    | inr (b, e) ↦ rw (e, add_suggestion) h
    | inl e ↦ rw (e, add_suggestion) (All-append IsSuggested f.out (s ∷ []) h (sound s refl, tt))
  ]

  match_one-All :
      (g : Identity) (jira : List Identity) (f : Found)
      → OfKind "gitlab" g
      → All (OfKind "jira") jira
      → All IsSuggested f.out
      → All IsSuggested (match_one to_lower g jira f).out
  match_one-All g [] f hg hj h = h
  match_one-All g (j ∷ jira) f hg hj h = match_one-All g jira _ hg hj.1 (
      add_suggestion-All f (pair_key g.id j.id) (score to_lower g j)
        (λ s e. suggested g j s hg hj.0 e) h)

  match_all-All :
      (gitlab jira : List Identity) (f : Found)
      → All (OfKind "gitlab") gitlab
      → All (OfKind "jira") jira
      → All IsSuggested f.out
      → All IsSuggested (match_all to_lower gitlab jira f).out
  match_all-All [] jira f hg hj h = h
  match_all-All (g ∷ gitlab) jira f hg hj h =
      match_all-All gitlab jira _ hg.1 hj (match_one-All g jira f hg.0 hj h)

not_below_total : (s t : Suggestion) → (not_below s t ≡ true) ⊎ (not_below t s ≡ true)
not_below_total s t = ground arith

not_below_trans :
    (s t u : Suggestion) → not_below s t ≡ true → not_below t u ≡ true → not_below s u ≡ true
not_below_trans s t u h k = ground arith

pub match-All :
    (to_lower : Text → Text) (identities : List Identity)
    → All (IsSuggested to_lower identities) (match to_lower identities)
unfolding match
match-All to_lower identities = All-sort not_below (IsSuggested to_lower identities) _ (
    match_all-All to_lower identities (of_kind "gitlab" identities) (of_kind "jira" identities)
      no_matches (of_kind-OfKind to_lower identities "gitlab" identities (λ i m. m))
      (of_kind-OfKind to_lower identities "jira" identities (λ i m. m)) tt)

-- Every suggestion pairs a GitLab identity and a Jira identity of the input: with reason
-- `email_exact` and score 1.0 if their trimmed e-mails in lower case are equal and not empty, and
-- with `username_exact` and 0.7 if this holds only of their user names. No suggestion stands before
-- one with a higher score.
pub match_sound :
    (to_lower : Text → Text) (identities : List Identity)
    → All (IsSuggested to_lower identities) (match to_lower identities)
      × IsSorted (λ s t. leb t.score s.score) (match to_lower identities)
unfolding match
match_sound to_lower identities = (
  match-All to_lower identities,
  sort-IsSorted not_below not_below_total not_below_trans
      (match_all to_lower (of_kind "gitlab" identities) (of_kind "jira" identities) no_matches).out,
)
