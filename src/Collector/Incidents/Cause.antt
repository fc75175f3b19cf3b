-- ===== src/Collector/Incidents/Cause.antt =====
-- Which deployment an incident is linked to.
use mathlib.Core.Path.{subst}
use dora_metrics_app.Base.{
  ℕ, ◌*◌, ◌↔◌, ◌∙◌, ◌&&◌, ◌==◌, ==_iff, str_eq, eq_iff, ◌≡◌, inl, inr, refl, sym, ap, Bool, true,
  false, Option, none, some, List, [], ◌∷◌, keep, Any, All, arith, Bool-cases, map,
}
use dora_metrics_app.Base.Members.{keep-Any, Any-keep}
use dora_metrics_app.Base.Int.{ℤ, pos, ◌-ℤ◌, ◌≤ℤ◌, leb_ℤ, ltb_ℤ}
use dora_metrics_app.Collector.Incidents.{
  DeploymentRow, Incident, is_candidate, finished_between, is_before, later_of, latest,
  find_deployment_for_incident, Linked, id_of, link_incidents, incident_link_lookback,
}

-- `d` does not finish before `e`, where both finish.
abbrev pub NotBefore : DeploymentRow → DeploymentRow → Type 0
NotBefore d e = is_before d.finished_at e.finished_at ≡ false

abbrev is_finished : Option ℤ → Bool
is_finished none = false
is_finished (some t) = true

before_trans :
    (a b c : Option ℤ)
    → is_finished b ≡ true
    → is_before a b ≡ false
    → is_before b c ≡ false
    → is_before a c ≡ false
before_trans none none none f h k = refl
before_trans none none (some z) f h k = refl
before_trans none (some y) none f h k = refl
before_trans none (some y) (some z) f h k = refl
before_trans (some x) none c f h k = ground (arith, f)
before_trans (some x) (some y) none f h k = refl
before_trans (some x) (some y) (some z) f h k = ground arith

-- What the query promises: one of the candidates, and none of them finishes after it.
IsLatest : List DeploymentRow → Option DeploymentRow → Type 0
IsLatest ds none = ds ≡ []
IsLatest ds (some d) = Any (λ x. x ≡ d) ds × All (NotBefore d) ds

AllFinished : List DeploymentRow → Type 0
AllFinished ds = All (λ e. is_finished e.finished_at ≡ true) ds

member_finished :
    (e : DeploymentRow) (ds : List DeploymentRow)
    → AllFinished ds
    → Any (λ x. x ≡ e) ds
    → is_finished e.finished_at ≡ true
unfolding AllFinished
member_finished e [] f h = absurd h
member_finished e (d ∷ ds) f (inl same) = subst (λ z. is_finished z.finished_at ≡ true) same f.0
member_finished e (d ∷ ds) f (inr h) = member_finished e ds f.1 h

before_irrefl : (a : Option ℤ) → is_before a a ≡ false
before_irrefl none = refl
before_irrefl (some x) = ground arith

before_asym : (a b : Option ℤ) → is_before a b ≡ true → is_before b a ≡ false
before_asym none b h = cc
before_asym (some x) none h = refl
before_asym (some x) (some y) h = ground arith

All-NotBefore :
    (d e : DeploymentRow) (ds : List DeploymentRow)
    → is_finished e.finished_at ≡ true
    → NotBefore d e
    → All (NotBefore e) ds
    → All (NotBefore d) ds
All-NotBefore d e [] f h k = tt
All-NotBefore d e (x ∷ ds) f h k =
    (before_trans d.finished_at e.finished_at x.finished_at f h k.0, All-NotBefore d e ds f h k.1)

later_of_before :
    (d e : DeploymentRow) → is_before d.finished_at e.finished_at ≡ true → later_of d (some e) ≡ e
later_of_before d e b = rw b refl

later_of_after :
    (d e : DeploymentRow) → is_before d.finished_at e.finished_at ≡ false → later_of d (some e) ≡ d
later_of_after d e b = rw b refl

-- A candidate in front of the others.
IsLatest-cons :
    (d : DeploymentRow) (ds : List DeploymentRow) (o : Option DeploymentRow)
    → AllFinished ds
    → IsLatest ds o
    → IsLatest (d ∷ ds) (some (later_of d o))
unfolding IsLatest
IsLatest-cons d ds none f h = rw h (inl refl, (before_irrefl d.finished_at, tt))
IsLatest-cons d ds (some e) f h = elim (Bool-cases (is_before d.finished_at e.finished_at)) [
  | inl b ↦
      subst (λ z. IsLatest (d ∷ ds) (some z)) (sym (later_of_before d e b))
        (inr h.0, (before_asym d.finished_at e.finished_at b, h.1))
  | inr b ↦
      subst (λ z. IsLatest (d ∷ ds) (some z)) (sym (later_of_after d e b))
        (
          inl refl,
          (before_irrefl d.finished_at, All-NotBefore d e ds (member_finished e ds f h.0) b h.1),
        )
]

no_rows : IsLatest [] none
unfolding IsLatest
no_rows = refl

latest-IsLatest : (ds : List DeploymentRow) → AllFinished ds → IsLatest ds (latest ds)
unfolding latest AllFinished
latest-IsLatest [] f = no_rows
latest-IsLatest (d ∷ ds) f = IsLatest-cons d ds (latest ds) f.1 (latest-IsLatest ds f.1)

candidate_finished :
    (project : ℕ) (created floor : ℤ) (d : DeploymentRow)
    → is_candidate project created floor d ≡ true
    → is_finished d.finished_at ≡ true
candidate_finished project created floor d h = ends d.finished_at (ground (arith, h))
  where
    ends : (t : Option ℤ) → finished_between floor created t ≡ true → is_finished t ≡ true
    ends none k = cc
    ends (some t) k = refl

kept-AllFinished :
    (project : ℕ) (created floor : ℤ) (rows : List DeploymentRow)
    → AllFinished (keep (is_candidate project created floor) rows)
unfolding AllFinished
kept-AllFinished project created floor [] = tt
kept-AllFinished project created floor (d ∷ rows) =
    let rest = kept-AllFinished project created floor rows in
    elim (Bool-cases (is_candidate project created floor d)) [
      | inl c ↦ rw c (candidate_finished project created floor d c, rest)
      | inr c ↦ rw c rest
    ]

NotBefore-member :
    (d e : DeploymentRow) (ds : List DeploymentRow)
    → All (NotBefore d) ds
    → Any (λ x. x ≡ e) ds
    → NotBefore d e
NotBefore-member d e [] h k = absurd k
NotBefore-member d e (x ∷ ds) h (inl same) = subst (NotBefore d) same h.0
NotBefore-member d e (x ∷ ds) h (inr k) = NotBefore-member d e ds h.1 k

-- A successful production deployment of the project that finished at `t`, in the 24 hours up to the
-- incident, both ends included.
abbrev pub MayCause : ℕ → ℤ → DeploymentRow → ℤ → Type 0
MayCause project created d t =
    (d.project_id ≡ project)
    × (d.is_production ≡ true)
    × (d.status ≡ "success")
    × (d.finished_at ≡ some t)
    × (created -ℤ pos (24 * 3_600_000_000) ≤ℤ t)
    × (t ≤ℤ created)

-- The cause of an incident: none if no row may be, and else a row that may, such that none of the others
-- finishes after it.
abbrev pub IsCause : List DeploymentRow → ℕ → ℤ → Option DeploymentRow → Type 0
IsCause rows project created none =
    (d : DeploymentRow) (t : ℤ) → Any (λ x. x ≡ d) rows → ¬ MayCause project created d t
IsCause rows project created (some d) =
    Any (λ x. x ≡ d) rows
    × ((t : ℤ) × MayCause project created d t
        × ((e : DeploymentRow) (u : ℤ)
            → Any (λ x. x ≡ e) rows
            → MayCause project created e u
            → u ≤ℤ t))

module _ (project : ℕ) (created : ℤ) where
  abbrev p : DeploymentRow → Bool
  p = is_candidate project created (created -ℤ incident_link_lookback)

  conditions :
      (a b c l r : Bool)
      → (a && (b && (c && (l && r))) ≡ true)
        ↔ ((a ≡ true) × (b ≡ true) × (c ≡ true) × (l ≡ true) × (r ≡ true))
  conditions a b c l r = ground arith

  leb_iff : (a b : ℤ) → (leb_ℤ a b ≡ true) ↔ (a ≤ℤ b)
  leb_iff a b = ground arith

  candidate_at :
      (d : DeploymentRow) (t : ℤ)
      → d.finished_at ≡ some t
      → (p d ≡ true) ↔ MayCause project created d t
  candidate_at d t f =
      let floor = created -ℤ pos (24 * 3_600_000_000) in
      let (to, from) =
        conditions (d.project_id == project) d.is_production (str_eq d.status "success")
          (leb_ℤ t created) (leb_ℤ floor t) in
      let same : p d ≡ (
          d.project_id == project
          && (d.is_production
              && (str_eq d.status "success" && (leb_ℤ t created && leb_ℤ floor t)))) =
        ap
          (λ o.
            d.project_id == project
            && (d.is_production && (str_eq d.status "success" && finished_between floor created o)))
          f in
      (
        λ h.
            let (a, b, c, l, r) = to (sym same ∙ h) in
            (
              (==_iff d.project_id project).0 a,
              b,
              (eq_iff d.status "success").0 c,
              f,
              (leb_iff floor t).0 r,
              (leb_iff t created).0 l,
            ),
        λ (a, b, c, g, r, l).
            same
            ∙ from (
              (==_iff d.project_id project).1 a,
              b,
              (eq_iff d.status "success").1 c,
              (leb_iff t created).1 l,
              (leb_iff floor t).1 r,
            ),
      )

  candidate_time : (d : DeploymentRow) → p d ≡ true → (t : ℤ) × MayCause project created d t
  candidate_time d h = go d.finished_at refl
    where
      go : (o : Option ℤ) → d.finished_at ≡ o → (t : ℤ) × MayCause project created d t
      go none e = absurd (lost (ap is_finished e))
        where
          lost : is_finished d.finished_at ≡ false → ⊥
          lost n =
              cc (n, candidate_finished project created (created -ℤ incident_link_lookback) d h)
      go (some t) e = (t, (candidate_at d t e).0 h)

  not_before_le :
      (d e : DeploymentRow) (t u : ℤ)
      → d.finished_at ≡ some t
      → e.finished_at ≡ some u
      → NotBefore d e
      → u ≤ℤ t
  not_before_le d e t u f g h = at_times (rw (f, g) at h)
    where
      at_times : ltb_ℤ t u ≡ false → u ≤ℤ t
      at_times k = ground arith

  module _ (rows : List DeploymentRow) where
    IsCause-of :
        (o : Option DeploymentRow) → IsLatest (keep p rows) o → IsCause rows project created o
    unfolding IsLatest
    IsCause-of none h =
        λ d t i m. subst (Any (λ x. x ≡ d)) h (Any-keep p d rows ((candidate_at d t m.3).1 m) i)
    IsCause-of (some d) h =
        let (i, c) = keep-Any p d rows h.0 in
        let (t, m) = candidate_time d c in
        (
          i,
          (
            t,
            m,
            λ e u j n. not_before_le d e t u m.3 n.3 (
                NotBefore-member d e (keep p rows) h.1
                  (Any-keep p e rows ((candidate_at e u n.3).1 n) j)),
          ),
        )

    find_deployment-IsCause :
        IsCause rows project created
          (find_deployment_for_incident rows project created (created -ℤ incident_link_lookback))
    unfolding find_deployment_for_incident
    find_deployment-IsCause = IsCause-of (latest (keep p rows)) (
        latest-IsLatest _
          (kept-AllFinished project created (created -ℤ incident_link_lookback) rows))

abbrev pub IsLinked : List DeploymentRow → ℕ → Linked → Type 0
IsLinked rows project l =
    (o : Option DeploymentRow) × (l.link ≡ id_of o) × IsCause rows project l.incident.created_at o

-- Each incident of a Jira collection is kept, in order, and linked to a deployment that is the cause
-- found for it: a successful production deployment of the project that finished in the 24 hours up
-- to the incident, both ends included, and no other one of these finished later. It has no link
-- exactly when there is no such deployment.
pub link_incidents-IsLinked :
    (rows : List DeploymentRow) (project : ℕ) (is : List Incident)
    → All (IsLinked rows project) (link_incidents rows project is)
      × (map (λ l. l.incident) (link_incidents rows project is) ≡ is)
unfolding link_incidents
link_incidents-IsLinked rows project [] = (tt, refl)
link_incidents-IsLinked rows project (i ∷ is) =
    let (all, same) = link_incidents-IsLinked rows project is in
    (
      (
        (
          find_deployment_for_incident rows project i.created_at
              (i.created_at -ℤ incident_link_lookback),
          refl,
          find_deployment-IsCause project i.created_at rows,
        ),
        all,
      ),
      ap (λ rest. i ∷ rest) same,
    )
