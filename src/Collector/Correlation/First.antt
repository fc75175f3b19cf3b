-- ===== src/Collector/Correlation/First.antt =====
-- Which deployment a merge request is linked to.
use mathlib.Core.Option.{some-injective}
use dora_metrics_app.Base.{
  ◌≡◌, ◌↔◌, ◌⊎◌, inl, inr, refl, sym, ap, ◌∙◌, String, Bool, true, false, not, ◌&&◌, Option, none,
  some, List, [], ◌∷◌, ◌++◌, map, keep, Any, Any-append_left, Any-append_right, arith,
  if◌then◌else◌, str_eq, Bool-cases,
}
use dora_metrics_app.Base.Members.{pairs-Any, Any-pairs, keep-Any, Any-keep, Any-append_cases}
use dora_metrics_app.Base.Int.{ℤ, ltb_ℤ, leb_ℤ, ◌≤ℤ◌, ◌-ℤ◌}
use dora_metrics_app.Collector.Correlation.{
  Deployment, MergeRequest, is_between, list_merged_between, interval_start, calls, backfill,
}

-- `ORDER BY finished_at ASC`, all finished, from an instant on.
unfoldable pub FinishAfter : ℤ → List Deployment → Type 0
FinishAfter after [] = Unit
FinishAfter after (d ∷ ds) = (t : ℤ) × (d.finished_at ≡ some t) × (after ≤ℤ t) × FinishAfter t ds

abbrev pub finishes_from : ℤ → Option ℤ → Bool
finishes_from t none = false
finishes_from t (some f) = leb_ℤ t f

-- The first deployment that finishes at or after an instant.
pub first_from : ℤ → List Deployment → Option Deployment
first_from t [] = none
first_from t (d ∷ ds) =
    let rest = first_from t ds in if finishes_from t d.finished_at then some d else rest

-- A merge request that the query takes at some time: merged into the branch, and not by a bot.
abbrev pub is_linkable : String → MergeRequest → Bool
is_linkable branch m = str_eq m.target_branch branch && not m.author_is_bot

and_swap :
    (a l r n : Bool)
    → ((a && ((l && r) && n)) ≡ true) ↔ (((a && n) ≡ true) × (l ≡ true) × (r ≡ true))
and_swap a l r n = ground arith

-- What `calls` should hold: a merge request of the list, in the interval that starts at `after`, with
-- the first deployment that finishes from its merge on.
abbrev pub IsOwned :
    List MergeRequest → String → ℤ → List Deployment → Deployment → MergeRequest → ℤ → Type 0
IsOwned mrs branch after ds d m t =
    Any (λ x. x ≡ m) mrs
    × (is_linkable branch m ≡ true)
    × (ltb_ℤ after t ≡ true)
    × (first_from t ds ≡ some d)

first_here :
    (t until : ℤ) (d : Deployment) (ds : List Deployment)
    → d.finished_at ≡ some until
    → leb_ℤ t until ≡ true
    → first_from t (d ∷ ds) ≡ some d
unfolding first_from
first_here t until d ds e h = rw (e, h) refl

first_later :
    (t until : ℤ) (d : Deployment) (ds : List Deployment)
    → d.finished_at ≡ some until
    → leb_ℤ t until ≡ false
    → first_from t (d ∷ ds) ≡ first_from t ds
unfolding first_from
first_later t until d ds e h = rw (e, h) refl

later_start :
    (after until t : ℤ)
    → after ≤ℤ until
    → ltb_ℤ until t ≡ true
    → (ltb_ℤ after t ≡ true) × (leb_ℤ t until ≡ false)
later_start after until t le h = ground arith

before : (until : ℤ) → until -ℤ backfill ≤ℤ until
unfolding ◌-ℤ◌
before until = ground arith

missed : (until t : ℤ) → leb_ℤ t until ≡ false → ltb_ℤ until t ≡ true
missed until t h = ground arith

module _ (mrs : List MergeRequest) (branch : String) where
  abbrev for_all : Deployment → ℤ → ℤ → List (Deployment × MergeRequest)
  for_all d after until = map (λ m. (d, m)) (list_merged_between mrs branch after until)

  between_iff :
      (after until t : ℤ) (m : MergeRequest)
      → m.merged_at ≡ some t
      → (is_between branch after until m ≡ true)
        ↔ ((is_linkable branch m ≡ true) × (ltb_ℤ after t ≡ true) × (leb_ℤ t until ≡ true))
  between_iff after until t m h = rw h (
      and_swap (str_eq m.target_branch branch) (ltb_ℤ after t) (leb_ℤ t until)
        (not m.author_is_bot))

  for_all_iff :
      (d₀ : Deployment) (after until : ℤ) (d : Deployment) (m : MergeRequest)
      → Any {A = Deployment × MergeRequest} (λ c. c ≡ (d, m)) (for_all d₀ after until)
        ↔ ((d₀ ≡ d) × Any (λ x. x ≡ m) mrs × (is_between branch after until m ≡ true))
  unfolding list_merged_between
  for_all_iff d₀ after until d m =
      let p = is_between branch after until in
      (
        λ h.
            let (e, k) = pairs-Any d₀ d m (keep p mrs) h in
            let (i, b) = keep-Any p m mrs k in (e, i, b),
        λ h. Any-pairs d₀ d m (keep p mrs) h.0 (Any-keep p m mrs h.2 h.1),
      )

  module _ (d : Deployment) (m : MergeRequest) (t : ℤ) (merged : m.merged_at ≡ some t) where
    -- What is shown of the calls after a deployment, or of all.
    Goal : Option Deployment → ℤ → List Deployment → Type 0
    Goal prev after ds =
        Any {A = Deployment × MergeRequest} (λ c. c ≡ (d, m)) (calls mrs branch prev ds)
        ↔ IsOwned mrs branch after ds d m t

    calls-cons :
        (prev : Option Deployment) (after until : ℤ) (d₀ : Deployment) (ds : List Deployment)
        → d₀.finished_at ≡ some until
        → interval_start prev until ≡ after
        → calls mrs branch prev (d₀ ∷ ds) ≡ for_all d₀ after until ++ calls mrs branch (some d₀) ds
    unfolding calls
    calls-cons prev after until d₀ ds e start = rw (e, start) refl

    -- A deployment at the front, whose interval starts at `after`.
    module _ (prev : Option Deployment) (after until : ℤ) (d₀ : Deployment) (ds : List Deployment)
        (e : d₀.finished_at ≡ some until) (le : after ≤ℤ until)
        (rest : Goal (some d₀) until ds) where
      owned :
          Any {A = Deployment × MergeRequest} (λ c. c ≡ (d, m)) (for_all d₀ after until)
            ⊎ Any {A = Deployment × MergeRequest} (λ c. c ≡ (d, m)) (calls mrs branch (some d₀) ds)
          → IsOwned mrs branch after (d₀ ∷ ds) d m t
      unfolding Goal
      owned (inl h) =
          let (same, i, b) = (for_all_iff d₀ after until d m).0 h in
          let (k, l, r) = (between_iff after until t m merged).0 b in
          (i, k, l, first_here t until d₀ ds e r ∙ ap some same)
      owned (inr h) =
          let (i, k, l, f) = rest.0 h in
          let (l', r) = later_start after until t le l in
          (i, k, l', first_later t until d₀ ds e r ∙ f)

      in_time :
          leb_ℤ t until ≡ true
          → IsOwned mrs branch after (d₀ ∷ ds) d m t
          → Any {A = Deployment × MergeRequest} (λ c. c ≡ (d, m)) (for_all d₀ after until)
      in_time r (i, k, l, f) = (for_all_iff d₀ after until d m).1 (
        some-injective _ _ (sym (first_here t until d₀ ds e r) ∙ f),
        i,
        (between_iff after until t m merged).1 (k, l, r),
      )

      too_late :
          leb_ℤ t until ≡ false
          → IsOwned mrs branch after (d₀ ∷ ds) d m t
          → Any {A = Deployment × MergeRequest} (λ c. c ≡ (d, m)) (calls mrs branch (some d₀) ds)
      unfolding Goal
      too_late r (i, k, l, f) =
          rest.1 (i, k, missed until t r, sym (first_later t until d₀ ds e r) ∙ f)

      step : interval_start prev until ≡ after → Goal prev after (d₀ ∷ ds)
      unfolding Goal
      step start = rw (calls-cons prev after until d₀ ds e start) (
        λ h. owned (Any-append_cases _ _ _ h),
        λ h. elim (Bool-cases (leb_ℤ t until)) [
          | inl r ↦ Any-append_left _ _ _ (in_time r h)
          | inr r ↦ Any-append_right _ _ _ (too_late r h)
        ],
      )

    none_left : (p : Deployment) (after : ℤ) → Goal (some p) after []
    unfolding Goal calls first_from
    none_left p after = (λ h. absurd h, λ (i, k, l, f). cc)

    later_deployments :
        (p : Deployment) (after : ℤ) (ds : List Deployment)
        → p.finished_at ≡ some after
        → FinishAfter after ds
        → Goal (some p) after ds
    unfolding FinishAfter
    later_deployments p after [] e h = none_left p after
    later_deployments p after (d₀ ∷ ds) e (until, e₀, le, h) =
        step (some p) after until d₀ ds e₀ le (later_deployments d₀ until ds e₀ h) (rw e refl)

    -- The calls that link merge requests to deployments, for finished deployments in order, pair a
    -- merge request with a deployment exactly when it is one of the list's, merged into the branch and
    -- not by a bot, at an instant later than 30 days before the end of the first deployment, and the
    -- deployment is the first that finishes at or after its merge.
    pub calls_iff :
        (d₀ : Deployment) (until : ℤ) (ds : List Deployment)
        → d₀.finished_at ≡ some until
        → FinishAfter until ds
        → Any {A = Deployment × MergeRequest} (λ c. c ≡ (d, m)) (calls mrs branch none (d₀ ∷ ds))
          ↔ IsOwned mrs branch (until -ℤ backfill) (d₀ ∷ ds) d m t
    unfolding Goal
    calls_iff d₀ until ds e h =
        step none (until -ℤ backfill) until d₀ ds e (before until)
          (later_deployments d₀ until ds e h) refl
